-- ===== src/Broker/Tied/Sends.antt =====
-- A SEND of stomp/stomp_proto.c to a topic or a queue to which a session has subscribed, from the
-- start of the broker on.
use lmq.Prelude.{
  ◌+◌, ◌≤◌, ◌≢◌, Bool, false, ◌++◌, ℕ, ◌≡◌, refl, subst, sym, List, inl, inr, true, none, some, [],
  ◌∷◌, arith, replicate, length-replicate, length, ◌==◌, Bool-cases, ◌/◌,
}
use lmq.Pbuf.{Bytes, ok, free_len}
use lmq.Dlist.{Ptr}
use lmq.MsgQueue.{create, header_size, iov_bytes}
use lmq.MsgQueue.Rep.{Holds, create-Holds}
use lmq.MsgQueue.Room.{pbuf_w_of}
use lmq.Binding.{Kind, topic, queue}
use lmq.BindingHash
use lmq.Stomp.Text.{codes}
use lmq.Stomp.Parse.{Msg, connected}
use lmq.Stomp.Header.{skip_command, read_header}
use lmq.Broker.{Broker, SessionData, done, names}
use lmq.Broker.Resume.{TakesBounded}
use lmq.Broker.Subscribing.{Fresh, queue_size}
use lmq.Broker.Handlers.{destination, make_message, connected_send, msg_input, session_start}
use lmq.Broker.Publishing.{passed_on}
use lmq.Broker.Tied.Making.{IsFresh}
use lmq.Broker.Tied.Gathering.{Prepared}
use lmq.Broker.Tied.Reach.{Reach, empty, next, start, input}
use lmq.Broker.Tied.Publishing.{Reaches, connected_send-Reaches}
use lmq.Broker.Tied.Dispatching.{Serves, connected_send-Serves}
use lmq.Broker.Tied.Tests.{
  at_first, send_all, memory, at_first-IsEmpty, fresh, state_of, one_session-IsFresh, greeting,
  greeted, greeted_lem,
}

send_all-bounded : TakesBounded send_all
send_all-bounded sf b env n e = ground arith

abbrev with_block : Bytes → Fresh
with_block b = record fresh { block = some b }

-- The destination is a topic or a queue.
abbrev name_of : Bool → Bytes
name_of true = codes "/topic/a"
name_of false = codes "/queue/a"

abbrev request : Bool → Bytes
request t = codes "SUBSCRIBE\ndestination:" ++ name_of t ++ codes "\n\n"

abbrev subscribed : Bool → Bytes → Broker ℕ
subscribed t b = state_of (msg_input send_all memory 4 (with_block b) greeted 8 (request t) 33)

subscribed_lem :
    (t : Bool) (b : Bytes)
    → msg_input send_all memory 4 (with_block b) greeted 8 (request t) 33
      ≡ done (subscribed t b) true
unfolding msg_input session_start
subscribed_lem true b = refl
subscribed_lem false b = refl

with_block-IsFresh : (b : Bytes) → IsFresh (with_block b) greeted
unfolding msg_input session_start
with_block-IsFresh b = record {
  queue = λ s x there ne. ground (arith, there);
  binding = λ s x there ne. ground (arith, there);
  room = λ b. omega arith;
}

subscribed-Reach : (t : Bool) (b : Bytes) → Reach send_all memory 4 (subscribed t b)
subscribed-Reach t b =
    next
      (next (next (empty at_first at_first-IsEmpty) (start true 8))
        (input fresh 8 greeting 9 true one_session-IsFresh greeted_lem))
      (input (with_block b) 8 (request t) 33 true (with_block-IsFresh b) (subscribed_lem t b))

abbrev behind_command : Bool → Bytes
behind_command t = codes "destination:" ++ name_of t ++ codes "\n\nhi"

abbrev send_msg : Bool → Msg
send_msg t = record {
  cmd = none;
  buf = codes "SEND\n" ++ behind_command t;
  hdr = behind_command t ∷ [];
  body = some (codes "hi");
  len = 29;
}

send_destination : (t : Bool) → destination (send_msg t) ≡ ok (name_of t)
unfolding read_header
send_destination true = refl
send_destination false = refl

send_behind : (t : Bool) → skip_command (send_msg t).buf ≡ some (behind_command t)
unfolding skip_command
send_behind true = refl
send_behind false = refl

found_binding :
    (t : Bool) (b : Bytes)
    → BindingHash.lookup (names (subscribed t b)) 4 (subscribed t b).table (name_of t) ≡ some 16
unfolding msg_input session_start
found_binding true b = refl
found_binding false b = refl

abbrev kind_of : Bool → Kind
kind_of true = topic
kind_of false = queue 0

is_kind : (t : Bool) (b : Bytes) → ((subscribed t b).bindings 16).kind ≡ kind_of t
unfolding msg_input session_start
is_kind true b = refl
is_kind false b = refl

abbrev message : Bool → Bytes → List Bytes
message t b =
    passed_on send_all memory send_all-bounded (subscribed t b) (send_msg t) (behind_command t)

abbrev data_of : SessionData
data_of = record {
  state = connected;
  bind = 16;
  msgq = 32;
  sbuf = record { slot = 0; offset = 0 };
  slen = 0;
}

bound_session : (t : Bool) (b : Bytes) → (subscribed t b).sessions 8 ≡ some data_of
unfolding msg_input session_start
bound_session true b = refl
bound_session false b = refl

no_other : (t : Bool) (b : Bytes) (sf : Ptr) → sf ≢ 8 → (subscribed t b).sessions sf ≡ none
unfolding msg_input session_start
no_other true b sf ne = ground arith
no_other false b sf ne = ground arith

only_session :
    (t : Bool) (b : Bytes) (sf : Ptr) (ss : SessionData)
    → (subscribed t b).sessions sf ≡ some ss
    → ss ≡ data_of
only_session t b sf ss e = elim (Bool-cases (sf == 8)) [
  | inl y ↦
      let is : (subscribed t b).sessions 8 ≡ some ss =
        subst (λ k. (subscribed t b).sessions k ≡ some ss) (ground arith) e in
      ground (arith, is, bound_session t b)
  | inr n ↦ absurd (ground (arith, e, no_other t b sf (ground arith)))
]

new_queue-Holds :
    (t : Bool) (b : Bytes) → length b ≡ queue_size / 4 → Holds ((subscribed t b).queues 32) []
unfolding msg_input session_start create
new_queue-Holds true b e = create-Holds (some b) queue_size (some 8) (omega arith) (omega arith) e
new_queue-Holds false b e = create-Holds (some b) queue_size (some 8) (omega arith) (omega arith) e

has_room :
    (t : Bool) (b : Bytes)
    → header_size + length (iov_bytes (message t b))
      ≤ free_len (pbuf_w_of ((subscribed t b).queues 32))
unfolding msg_input session_start make_message
has_room true b = omega arith
has_room false b = omega arith

ready :
    (t : Bool) (b : Bytes)
    → length b ≡ queue_size / 4
    → (sf : Ptr) (ss : SessionData) → (subscribed t b).sessions sf ≡ some ss
    → ss.bind ≡ 16
    → Prepared send_all memory send_all-bounded (message t b) (subscribed t b) ss
ready t b e sf ss is bi =
    subst (Prepared send_all memory send_all-bounded (message t b) (subscribed t b))
      (sym (only_session t b sf ss is))
      (record {
        held = [];
        quiet = refl;
        holds = new_queue-Holds t b e;
        full = tt;
        room = has_room t b;
      })

-- What `malloc` gives for the first buffer of the queue
abbrev block : Bytes
block = replicate 2097152 0

connected_send-Reaches_example :
    Reaches send_all memory send_all-bounded
      (message true block)
      (subscribed true block)
      16
      (connected_send send_all memory 4 (subscribed true block) (send_msg true))
connected_send-Reaches_example =
    connected_send-Reaches send_all memory send_all-bounded 4 (subscribed true block)
      (send_msg true) (name_of true) (behind_command true) 16 (subscribed-Reach true block)
      (send_destination true) (send_behind true) (found_binding true block) (omega arith)
      (is_kind true block) (ready true block (length-replicate {A = ℕ} 2097152 0))

connected_send-Serves_example :
    Serves send_all memory send_all-bounded
      (message false block)
      (subscribed false block)
      16
      0
      (connected_send send_all memory 4 (subscribed false block) (send_msg false))
connected_send-Serves_example =
    connected_send-Serves send_all memory send_all-bounded 4 (subscribed false block)
      (send_msg false) (name_of false) (behind_command false) 16 0 8 data_of
      (subscribed-Reach false block) (send_destination false) (send_behind false)
      (found_binding false block) (omega arith) (is_kind false block) (bound_session false block)
      refl (ready false block (length-replicate {A = ℕ} 2097152 0))
