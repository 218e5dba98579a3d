-- ===== src/Broker.antt =====
-- The sessions of the STOMP broker: the state that stomp/stomp_subr.c keeps, and its operations on
-- one session. `sf`, the queues and the bindings are pointers, 0 for NULL.
pub mod Subscribing
pub mod Handlers
pub mod Resume
pub mod Delivering
pub mod Draining
pub mod Frame
pub mod Topic
pub mod Publishing
pub mod Dispatching
pub mod Tied
pub mod Leaving
pub mod Connecting
mod Tests
use lmq.Prelude.{ℕ, ◌+◌, ◌-◌, Bool, true, false, Option, none, some, List, ◌==◌, ltb, if◌then◌else◌}
use lmq.Pbuf.{Bytes}
use lmq.Dlist.{Ptr, null}
use lmq.Buckets.{Buckets, update}
use lmq.MsgQueue.{MsgQueue, Place, Pushed, rejected, accepted, peek, pop_msg, bytes_at}
use lmq.Binding.{Binding, Kind, Unsubscribed, reads_freed, kept}
use lmq.Binding
use lmq.Stomp.Parse.{State, initial, connected}

-- `stomp_data_t`; `ss_sbuf` points into the queue.
pub record SessionData : Type 0 where
  pub state : State
  pub bind : Ptr
  pub msgq : Ptr
  pub sbuf : Place
  pub slen : ℕ

-- The user data of each `sf`, the queues, the bindings and their table, the counters of
-- stomp_proto.c, and the environment, which answers for sockets and memory.
pub record Broker {ℓ} (N : Type ℓ) : Type ℓ where
  pub sessions : Ptr → Option SessionData
  pub queues : Ptr → MsgQueue
  pub bindings : Ptr → Binding
  pub table : Buckets
  pub session_id : ℕ
  pub message_id : ℕ
  pub env : N

-- How a call ends: in a state, with a flag that is false for `return -1`; with an access to memory
-- that is freed or NULL; or without the fuel that it needs.
pub data Outcome {ℓ} (W : Type ℓ) : Type ℓ where
  done : W → Bool → Outcome W
  crash : Outcome W
  stuck : Outcome W

-- The next call, if this one ends in a state.
abbrev pub and_then {ℓ} : {W : Type ℓ} → Outcome W → (W → Bool → Outcome W) → Outcome W
and_then (done w r) f = f w r
and_then crash f = crash
and_then stuck f = stuck

abbrev pub state_of : Option SessionData → Option State
state_of none = none
state_of (some ss) = some ss.state

module _ {ℓ} {N : Type ℓ} where
  abbrev pub with_session : Broker N → Ptr → Option SessionData → Broker N
  with_session w sf ss = record w { sessions = update w.sessions sf ss }

  abbrev pub with_queue : Broker N → Ptr → MsgQueue → Broker N
  with_queue w p q = record w { queues = update w.queues p q }

  abbrev pub with_binding : Broker N → Ptr → Binding → Broker N
  with_binding w p b = record w { bindings = update w.bindings p b }

  abbrev pub names : Broker N → Ptr → Bytes
  names w p = (w.bindings p).name

  -- `stomp_create_session`
  unfoldable pub create_session : Bool → Broker N → Ptr → Broker N × Bool
  create_session allocated w sf = elim (w.sessions sf) [
    | some ss ↦ (w, true)
    | none ↦
        if allocated
        then (
          with_session w sf (
              some (record {
                state = initial;
                bind = null;
                msgq = null;
                sbuf = record { slot = 0; offset = 0 };
                slen = 0;
              })),
          true,
        )
        else (w, false)
  ]

  -- `stomp_get_state`; `none` for -1.
  unfoldable pub get_state : Broker N → Ptr → Option State
  get_state w sf = state_of (w.sessions sf)

  abbrev pub put_state : Broker N → Ptr → State → Option SessionData → Outcome (Broker N)
  put_state w sf state none = crash
  put_state w sf state (some ss) =
      done (with_session w sf (some (record ss { state = state }))) true

  -- `stomp_set_state`, which does not look whether there is a session.
  unfoldable pub set_state : Broker N → Ptr → State → Outcome (Broker N)
  set_state w sf state = put_state w sf state (w.sessions sf)

  abbrev pub left : Broker N → Ptr → Unsubscribed → Outcome (Broker N)
  left w bi reads_freed = crash
  left w bi (kept ms count) =
      done (with_binding w bi (record (w.bindings bi) { members = ms; members_count = count })) true

  -- `binding_unsubscribe`, of the sink of a queue
  unfoldable pub leave : Broker N → Ptr → Ptr → Outcome (Broker N)
  unfolding Binding.unsubscribe
  leave w bi sink = left w bi (Binding.unsubscribe (w.bindings bi) sink)

  abbrev pub destroy_from : Broker N → Ptr → Option SessionData → Outcome (Broker N)
  unfolding leave
  destroy_from w sf none = done w true
  destroy_from w sf (some ss) =
      and_then (if ss.bind == null then done w true else leave w ss.bind ss.msgq)
        λ w' r. done (with_session w' sf none) true

  -- `stomp_destroy_session`: the queue and the data of the session are freed, so nothing reads
  -- them any more.
  unfoldable pub destroy_session : Broker N → Ptr → Outcome (Broker N)
  unfolding destroy_from
  destroy_session w sf = destroy_from w sf (w.sessions sf)

  -- `sf_send` on the bytes takes some of them, or fails.
  module _ (send : Ptr → Bytes → N → N × Option ℕ) where
    abbrev pub popped : Broker N → Ptr → Option (MsgQueue × Bool) → Outcome (Broker N)
    popped w p none = stuck
    popped w p (some (q, r)) = done (with_queue w p q) true

    abbrev pub sent : Broker N → Ptr → SessionData → Option ℕ → Outcome (Broker N)
    unfolding pop_msg
    sent w sf ss none = done w false
    sent w sf ss (some n) =
        let ss' : SessionData = record ss {
          sbuf = record { slot = ss.sbuf.slot; offset = ss.sbuf.offset + n };
          slen = ss.slen - n;
        } in
        let w' = with_session w sf (some ss') in
        if ss.slen - n == 0 then popped w' ss.msgq (pop_msg (w.queues ss.msgq)) else done w' true

    -- The part of `stomp_send_resume` behind the choice of a message.
    abbrev pub send_part : Broker N → Ptr → SessionData → Outcome (Broker N)
    unfolding sent
    send_part w sf ss =
        if ltb 0 ss.slen
        then (let r = send sf (bytes_at (w.queues ss.msgq) ss.sbuf ss.slen) w.env in
            sent (record (with_session w sf (some ss)) { env = r.0 }) sf ss r.1)
        else done (with_session w sf (some ss)) true

    abbrev pub peeked :
        Broker N → Ptr → SessionData → Option (MsgQueue × Option (Place × ℕ)) → Outcome (Broker N)
    unfolding send_part
    peeked w sf ss none = stuck
    peeked w sf ss (some (q, none)) = done (with_queue w ss.msgq q) true
    peeked w sf ss (some (q, some (place, n))) =
        send_part (with_queue w ss.msgq q) sf (record ss { sbuf = place; slen = n })

    abbrev pub resume_from : Broker N → Ptr → Option SessionData → Outcome (Broker N)
    unfolding peeked send_part peek
    resume_from w sf none = done w false
    resume_from w sf (some ss) =
        if ss.msgq == null
        then done w false
        else if ss.slen == 0
        then peeked w sf ss (peek (w.queues ss.msgq))
        else send_part w sf ss

    -- `stomp_send_resume`
    unfoldable pub send_resume : Broker N → Ptr → Outcome (Broker N)
    unfolding resume_from
    send_resume w sf = resume_from w sf (w.sessions sf)
