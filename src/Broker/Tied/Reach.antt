-- ===== src/Broker/Tied/Reach.antt =====
-- The states that the broker of stomp/stomp_subr.c comes to by the functions of stomp/stomp_proto.c.
use lmq.Prelude.{◌≢◌, ℕ, ◌≡◌, subst, Bool, Option, none, arith}
use lmq.Pbuf.{Bytes}
use lmq.Dlist.{Ptr, null}
use lmq.Binding.Members.{times}
use lmq.Binding.Turns.{InOrder}
use lmq.Broker.{Broker, done}
use lmq.Broker.Subscribing.{Fresh}
use lmq.Broker.Handlers.{session_start, session_end, msg_input, msg_output}
use lmq.Broker.Tied.{Tied}
use lmq.Broker.Tied.Parting.{KeepsTied}
use lmq.Broker.Tied.Making.{IsFresh}
use lmq.Broker.Tied.Handling.{
  session_start-Tied, session_end-KeepsTied, msg_output-KeepsTied, msg_input-KeepsTied,
}

module _ {ℓ} {N : Type ℓ} (send : Ptr → Bytes → N → N × Option ℕ) (malloc : N → ℕ → Option Bytes)
    (fuel : ℕ) where
  -- No session has data, and no binding has members.
  pub record IsEmpty (w : Broker N) : Type 0 where
    pub sessions : (sf : Ptr) → w.sessions sf ≡ none
    pub valid : (b : Ptr) → InOrder (w.bindings b)
    pub members : (b q : Ptr) → q ≢ null → times q (w.bindings b).members ≡ 0

  -- What libsf asks the protocol to do, with an end that is no crash.
  pub data Step (w : Broker N) : Broker N → Type ℓ where
    start : (allocated : Bool) (sf : Ptr) → Step w (session_start allocated w sf).0
    input :
        (fr : Fresh) (sf : Ptr) (buf : Bytes) (len : ℕ) {w' : Broker N} (r : Bool)
        → IsFresh fr w
        → msg_input send malloc fuel fr w sf buf len ≡ done w' r
        → Step w w'
    output : (sf : Ptr) {w' : Broker N} (r : Bool) → msg_output send w sf ≡ done w' r → Step w w'
    finish : (sf : Ptr) {w' : Broker N} (r : Bool) → session_end w sf ≡ done w' r → Step w w'

  pub data Reach : Broker N → Type ℓ where
    empty : (w : Broker N) → IsEmpty w → Reach w
    next : {w w' : Broker N} → Reach w → Step w w' → Reach w'

  IsEmpty-Tied : {w : Broker N} → IsEmpty w → Tied w
  IsEmpty-Tied v = record {
    valid = v.valid;
    member = λ b q ne lt. absurd (omega (arith, v.members b q ne));
    calls = λ sf ss is ne. absurd (ground (arith, v.sessions sf, is));
    bound = λ sf ss is ne. absurd (ground (arith, v.sessions sf, is));
  }

  Step-Tied : {w w' : Broker N} → Tied w → Step w w' → Tied w'
  Step-Tied {w = w} t (start allocated sf) = session_start-Tied allocated w sf t
  Step-Tied {w = w} t (input fr sf buf len r fresh e) =
      subst KeepsTied e (msg_input-KeepsTied send malloc fuel fr w sf t fresh buf len)
  Step-Tied {w = w} t (output sf r e) = subst KeepsTied e (msg_output-KeepsTied send w sf t)
  Step-Tied {w = w} t (finish sf r e) = subst KeepsTied e (session_end-KeepsTied w sf t)

  -- In every state that the broker comes to from the start, by sessions that start, send messages of
  -- any kind, are ready for output and end, in any order and as long as none of this crashes: the
  -- members of each binding are the queues of the sessions that are bound to it, each of them once;
  -- the queue of a session calls back this session; each binding counts its members, and where it is a
  -- queue with places, its turn is at one of them. When a message comes, no binding is full, so that
  -- none is extended, and `malloc` returns no memory that a session uses.
  pub Reach-Tied : {w : Broker N} → Reach w → Tied w
  Reach-Tied (empty w v) = IsEmpty-Tied v
  Reach-Tied (next r s) = Step-Tied (Reach-Tied r) s
