-- ===== src/MsgQueue/Tests.antt =====
-- Runs of msgqueue.c, and its theorems at concrete queues.
use lmq.Prelude.{◌+◌, ◌≤◌, ℕ, ◌≡◌, refl, true, Option, none, some, List, [], ◌∷◌, arith, replicate}
use lmq.Pbuf.{free_len, Bytes, write, init, write_prepare}
use lmq.MsgQueue.{
  header_size, MsgQueue, accepted, create, peek, pop_msg, push_msg, seek, make_room, total_len,
  too_big, wnext, write_all, header_bytes, header_len, bytes_at,
}
use lmq.MsgQueue.Rep.{Holds, create-Holds}
use lmq.MsgQueue.Read.{Peeks, peek-Peeks, Pops, pop_msg-Pops}
use lmq.MsgQueue.Pushing.{Pushes, push_msg-Pushes}
use lmq.MsgQueue.Room.{pbuf_w_of}
use lmq.MsgQueue.Stable.{bytes_at-push_msg}
use lmq.Stomp.Text.{codes}

-- Buffers of 32 bytes.
abbrev block : Option Bytes
block = some (replicate 32 0)

abbrev queue : MsgQueue
queue = record {
  pbufs =
      record { len = 32; buf = replicate 32 0; head = 0; tail = 0; owned = true }
      ∷ record { len = 0; buf = []; head = 0; tail = 0; owned = true }
      ∷ record { len = 0; buf = []; head = 0; tail = 0; owned = true }
      ∷ record { len = 0; buf = []; head = 0; tail = 0; owned = true }
      ∷ [];
  pbuf_r = 0;
  pbuf_w = 0;
  queue_total_size = 128;
  callback = some 7;
}

create-queue : create block 128 (some 7) ≡ some queue
unfolding create
create-queue = refl

abbrev blocks : ℕ → Option Bytes
blocks i = block

abbrev hello : List Bytes
hello = codes "he" ∷ codes "llo" ∷ []

queue-Holds : Holds queue []
unfolding create
queue-Holds = create-Holds block 128 (some 7) (omega arith) (omega arith) refl

push_msg-Pushes_example : Pushes [] (codes "hello") (some 7) (push_msg blocks queue hello)
push_msg-Pushes_example =
    push_msg-Pushes blocks queue [] hello queue-Holds (λ i. refl) (omega arith)

-- The queue with one message.
abbrev pub one : MsgQueue
unfolding push_msg total_len too_big make_room write_all header_bytes write write_prepare
one = elim (push_msg blocks queue hello) [ none ↦ queue | some (q, _) ↦ q ]

pub one-Holds : Holds one (codes "hello" ∷ [])
unfolding one
one-Holds = (push_msg-Pushes blocks queue [] hello queue-Holds (λ i. refl) (omega arith)).0

pub one_callback : one.callback ≡ some 7
unfolding one
one_callback = refl

pub one_room : header_size + 5 ≤ free_len (pbuf_w_of one)
unfolding one
one_room = omega arith

peek-one : peek one ≡ some (one, some (record { slot = 0; offset = 4 }, 5))
unfolding one peek seek header_len
peek-one = refl

bytes_at-one : bytes_at one (record { slot = 0; offset = 4 }) 5 ≡ codes "hello"
unfolding one
bytes_at-one = refl

peek-Peeks_example : Peeks (codes "hello" ∷ []) (peek one)
peek-Peeks_example = peek-Peeks one (codes "hello" ∷ []) one-Holds

pop_msg-Pops_example : Pops (codes "hello" ∷ []) (pop_msg one)
pop_msg-Pops_example = pop_msg-Pops one (codes "hello" ∷ []) one-Holds

-- The queue with two messages, the second in the second buffer.
abbrev long : List Bytes
long = replicate 25 1 ∷ []

abbrev two : MsgQueue
unfolding one
two = elim (push_msg blocks one long) [ none ↦ queue | some (q, _) ↦ q ]

push_msg-two : push_msg blocks one long ≡ some (two, accepted (some 7))
unfolding two push_msg total_len too_big make_room write_all header_bytes write write_prepare wnext
    init
push_msg-two = refl

bytes_at-push_msg_example :
    bytes_at two (record { slot = 0; offset = 4 }) 5
    ≡ bytes_at one (record { slot = 0; offset = 4 }) 5
unfolding one
bytes_at-push_msg_example =
    bytes_at-push_msg blocks one one two (codes "hello" ∷ []) long (record { slot = 0; offset = 4 })
      5 (accepted (some 7)) one-Holds (λ i. refl) (omega arith) peek-one push_msg-two
