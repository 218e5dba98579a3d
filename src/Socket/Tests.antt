-- ===== src/Socket/Tests.antt =====
-- Runs of sf_socket.c, and its theorems at a concrete buffer.
use lmq.Prelude.{
  Bool, ◌&&◌, ◌==◌, ℕ, ◌≡◌, refl, [], ◌∷◌, true, some, leb, Bool-cases, inl, inr, if◌then◌else◌,
  arith,
}
use lmq.Pbuf.{Pbuf}
use lmq.Pbuf.Inv.{IsValid}
use lmq.Stomp.Text.{codes}
use lmq.Socket.{Received, bytes, no_bytes_yet, do_receive2, socket_send, would_block}
use lmq.Socket.Poll
use lmq.Socket.Poll.{Interest}
use lmq.Socket.Receiving.{GivesBounded}

abbrev buffer : Pbuf
buffer = record { len = 6; buf = 1 ∷ 2 ∷ 0 ∷ 0 ∷ 0 ∷ 0 ∷ []; head = 0; tail = 2; owned = true }

buffer-IsValid : IsValid buffer
buffer-IsValid = record { block = refl; ordered = omega arith; within = omega arith }

-- A peer that sends two bytes at once.
abbrev pair : ℕ → Received
pair n = if leb 2 n then bytes (7 ∷ 8 ∷ []) else no_bytes_yet

pair-GivesBounded : GivesBounded pair
unfolding do_receive2
pair-GivesBounded n b e = elim (Bool-cases (leb 2 n)) [
  | inl t ↦ let f : some (7 ∷ 8 ∷ []) ≡ some b = rw t at e in ground (arith, t, f)
  | inr t ↦ let f : some [] ≡ some b = rw t at e in ground (arith, t, f)
]

socket_send_blocked : socket_send (λ b. would_block) (codes "a") ≡ some 0
unfolding socket_send
socket_send_blocked = refl

-- A socket is watched for reads and writes, once per change.
abbrev only_edges : ℕ → ℕ → ℕ → Interest → Bool
only_edges poll_fd cmd fd i = cmd == 1 && i.events == 2147483653 && i.sock == 64

poll_add_run : Poll.poll_add only_edges 3 7 64 ≡ true
unfolding Poll.poll_add
poll_add_run = refl
