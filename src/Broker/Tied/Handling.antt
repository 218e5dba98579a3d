-- ===== src/Broker/Tied/Handling.antt =====
-- That every handler of stomp/stomp_proto.c keeps the sessions, the queues and the bindings tied.
use lmq.Prelude.{ℕ, ◌≡◌, refl, Bool, true, false, Option, none, some, if◌then◌else◌, if-both, arith}
use lmq.Pbuf.{Bytes, Ret, ok, failed, fault}
use lmq.Dlist.{Ptr, null}
use lmq.Stomp.Parse.{Code, connect, disconnect, State, initial, Command, commands, Msg, parse}
use lmq.Broker.{
  Broker, SessionData, Outcome, done, crash, stuck, and_then, with_session, create_session,
  put_state, set_state, get_state, send_resume,
}
use lmq.Broker.Subscribing.{Fresh}
use lmq.Broker.Handlers.{
  destination, with_dest, session_start, session_end, connected_disconnect, connected_subscribe,
  connected_unsubscribe, msg_output, handle, handled, run_command, parsed, input_from, msg_input,
}
use lmq.Broker.Tied.{Tied, Same-refl, Same-Tied, After}
use lmq.Broker.Tied.Sending.{with_session-Same, send_resume-After}
use lmq.Broker.Tied.Passing.{connected_send-After, initial_connect-After}
use lmq.Broker.Tied.Parting.{KeepsTied, unbound-Tied}
use lmq.Broker.Tied.Leaving.{destroy_session-KeepsTied, unsubscribe-KeepsTied}
use lmq.Broker.Tied.Making.{IsFresh}
use lmq.Broker.Tied.Subscribing.{subscribe-KeepsTied}

module _ {ℓ} {N : Type ℓ} where
  After-KeepsTied : {w : Broker N} (o : Outcome (Broker N)) → Tied w → After w o → KeepsTied o
  After-KeepsTied (done w' r) t v = Same-Tied v t
  After-KeepsTied crash t v = tt
  After-KeepsTied stuck t v = tt

  and_then-KeepsTied :
      (o : Outcome (Broker N)) (next : Broker N → Bool → Outcome (Broker N))
      → KeepsTied o
      → ((w : Broker N) (r : Bool) → Tied w → KeepsTied (next w r))
      → KeepsTied (and_then o next)
  and_then-KeepsTied (done w r) next t f = f w r t
  and_then-KeepsTied crash next t f = tt
  and_then-KeepsTied stuck next t f = tt

  new_session-Tied :
      (w : Broker N) (sf : Ptr) (ss : SessionData)
      → Tied w
      → w.sessions sf ≡ none
      → ss.bind ≡ null
      → ss.msgq ≡ null
      → Tied (with_session w sf (some ss))
  new_session-Tied w sf ss t is bi mq =
      unbound-Tied w sf (some ss) t (λ x there. absurd (cc))
        λ x e. (ground (arith, e, bi), λ ne. absurd (ground (arith, e, mq)))

  pub session_start-Tied :
      (allocated : Bool) (w : Broker N) (sf : Ptr) → Tied w → Tied (session_start allocated w sf).0
  unfolding session_start create_session
  session_start-Tied allocated w sf t = started (w.sessions sf) refl
    where
      started :
          (o : Option SessionData)
          → w.sessions sf ≡ o
          → Tied
              (elim o as (λ _. Broker N × Bool) [
                | some ss ↦ (w, true)
                | none ↦
                    if allocated
                    then (
                      with_session w sf (
                          some (record {
                            state = initial;
                            bind = null;
                            msgq = null;
                            sbuf = record { slot = 0; offset = 0 };
                            slen = 0;
                          })),
                      true,
                    )
                    else (w, false)
              ]).0
      started (some ss) is = t
      started none is =
          if-both (λ (r : Broker N × Bool). Tied r.0) allocated _ (w, false)
            (λ e. new_session-Tied w sf _ t is refl refl) λ e. t

  put_state-KeepsTied :
      (w : Broker N) (sf : Ptr) (state : State) (o : Option SessionData)
      → Tied w
      → w.sessions sf ≡ o
      → KeepsTied (put_state w sf state o)
  put_state-KeepsTied w sf state none t is = tt
  put_state-KeepsTied w sf state (some ss) t is =
      Same-Tied
        (with_session-Same w w sf ss (record ss { state = state }) is refl refl (Same-refl w)) t

  handled-KeepsTied :
      (sf : Ptr) (next : State) (w : Broker N) (r : Bool) → Tied w → KeepsTied (handled sf next w r)
  unfolding handled set_state
  handled-KeepsTied sf next w false t = t
  handled-KeepsTied sf next w true t = put_state-KeepsTied w sf next (w.sessions sf) t refl

  with_dest-KeepsTied :
      (w : Broker N) (d : Ret Bytes) (f : Bytes → Outcome (Broker N))
      → Tied w
      → ((dest : Bytes) → KeepsTied (f dest))
      → KeepsTied (with_dest w d f)
  with_dest-KeepsTied w (ok dest) f t g = g dest
  with_dest-KeepsTied w failed f t g = t
  with_dest-KeepsTied w fault f t g = tt

  pub session_end-KeepsTied : (w : Broker N) (sf : Ptr) → Tied w → KeepsTied (session_end w sf)
  unfolding session_end
  session_end-KeepsTied w sf t = destroy_session-KeepsTied w sf t

  module _ (send : Ptr → Bytes → N → N × Option ℕ) where
    pub msg_output-KeepsTied : (w : Broker N) (sf : Ptr) → Tied w → KeepsTied (msg_output send w sf)
    unfolding msg_output
    msg_output-KeepsTied w sf t =
        After-KeepsTied (send_resume send w sf) t (send_resume-After w send w sf (Same-refl w))

    module _ (malloc : N → ℕ → Option Bytes) (fuel : ℕ) (fr : Fresh) (w : Broker N) (sf : Ptr)
        (t : Tied w) (fresh : IsFresh fr w) where
      handle-KeepsTied : (msg : Msg) (c : Code) → KeepsTied (handle send malloc fuel fr w sf msg c)
      unfolding handle connected_disconnect connected_subscribe connected_unsubscribe
      handle-KeepsTied msg connect =
          After-KeepsTied _ t (initial_connect-After w send malloc w sf (Same-refl w))
      handle-KeepsTied msg disconnect = destroy_session-KeepsTied w sf t
      handle-KeepsTied msg Code.send =
          After-KeepsTied _ t (connected_send-After w send malloc fuel w msg (Same-refl w))
      handle-KeepsTied msg Code.subscribe =
          with_dest-KeepsTied w (destination msg) _ t
            λ dest. subscribe-KeepsTied fr w sf t fresh fuel dest
      handle-KeepsTied msg Code.unsubscribe =
          with_dest-KeepsTied w (destination msg) _ t λ dest. unsubscribe-KeepsTied w sf t fuel dest

      run_command-KeepsTied :
          (msg : Msg) (o : Option Command) → KeepsTied (run_command send malloc fuel fr w sf msg o)
      unfolding run_command
      run_command-KeepsTied msg none = tt
      run_command-KeepsTied msg (some c) =
          and_then-KeepsTied (handle send malloc fuel fr w sf msg c.code) (handled sf c.next_state)
            (handle-KeepsTied msg c.code) λ w' r t'. handled-KeepsTied sf c.next_state w' r t'

      parsed-KeepsTied : (o : Option (Option Msg)) → KeepsTied (parsed send malloc fuel fr w sf o)
      unfolding parsed
      parsed-KeepsTied none = tt
      parsed-KeepsTied (some none) = t
      parsed-KeepsTied (some (some msg)) = run_command-KeepsTied msg msg.cmd

      input_from-KeepsTied :
          (buf : Bytes) (len : ℕ) (o : Option State)
          → KeepsTied (input_from send malloc fuel fr w sf buf len o)
      unfolding input_from
      input_from-KeepsTied buf len none = t
      input_from-KeepsTied buf len (some state) =
          parsed-KeepsTied (parse buf len (some (commands state)))

      pub msg_input-KeepsTied :
          (buf : Bytes) (len : ℕ) → KeepsTied (msg_input send malloc fuel fr w sf buf len)
      unfolding msg_input
      msg_input-KeepsTied buf len = input_from-KeepsTied buf len (get_state w sf)
