-- ===== src/Broker/Tied/Ending.antt =====
-- How a session of stomp/stomp_proto.c ends in a state that the broker comes to.
use lmq.Prelude.{
  ℕ, ◌+◌, ◌<◌, ◌≡◌, ◌≢◌, refl, inl, inr, true, false, Option, none, some, ◌==◌, Bool-cases, arith,
}
use lmq.Pbuf.{Bytes}
use lmq.Dlist.{Ptr, null}
use lmq.Binding.{Unsubscribed, reads_freed, kept, unsubscribe}
use lmq.Binding.Members.{times}
use lmq.Binding.Turns.{InOrder-IsValid}
use lmq.Binding.Delivery.{Unsubscribes, unsubscribe-Unsubscribes}
use lmq.Broker.{
  Broker, SessionData, Outcome, done, crash, and_then, with_session, left, leave, destroy_session,
}
use lmq.Broker.Handlers.{session_end}
use lmq.Broker.Tied.{Tied}
use lmq.Broker.Tied.Reach.{Reach, Reach-Tied}

module _ {ℓ} {N : Type ℓ} where
  -- The session leaves its binding, in which others stay.
  pub record Parts (w : Broker N) (sf : Ptr) (ss : SessionData) (w' : Broker N) : Type ℓ where
    pub gone : w'.sessions sf ≡ none
    pub sessions : (s : Ptr) → sf ≢ s → w'.sessions s ≡ w.sessions s
    pub queues : (p : Ptr) → w'.queues p ≡ w.queues p
    pub counted : (w'.bindings ss.bind).members_count + 1 ≡ (w.bindings ss.bind).members_count
    pub no_member : times ss.msgq (w'.bindings ss.bind).members ≡ 0
    pub members :
        (q : Ptr)
        → q ≢ null
        → q ≢ ss.msgq
        → times q (w'.bindings ss.bind).members ≡ times q (w.bindings ss.bind).members
    pub bindings : (b : Ptr) → ss.bind ≢ b → w'.bindings b ≡ w.bindings b

  pub data Ends (w : Broker N) (sf : Ptr) (ss : SessionData) : Outcome (Broker N) → Type ℓ where
    unbound : ss.bind ≡ null → Ends w sf ss (done (with_session w sf none) true)
    alone : ss.bind ≢ null → (w.bindings ss.bind).members_count ≡ 1 → Ends w sf ss crash
    parts :
        (w' : Broker N)
        → ss.bind ≢ null
        → 1 < (w.bindings ss.bind).members_count
        → Parts w sf ss w'
        → Ends w sf ss (done w' true)

  left-Ends :
      (w : Broker N) (sf : Ptr) (ss : SessionData) (u : Unsubscribed)
      → ss.bind ≢ null
      → times ss.msgq (w.bindings ss.bind).members ≡ 1
      → Unsubscribes ss.msgq (w.bindings ss.bind).members (w.bindings ss.bind).members_count u
      → Ends w sf ss (and_then (left w ss.bind u) λ w' r. done (with_session w' sf none) true)
  left-Ends w sf ss reads_freed ne once u = alone ne (omega (arith, u.1, once))
  left-Ends w sf ss (kept ms c) ne once u =
      let here : (sf == sf) ≡ true = ground arith in
      let there : (ss.bind == ss.bind) ≡ true = ground arith in
      parts _ ne (ground (arith, u.counted, u.some_left, once)) (record {
        gone = rw here refl;
        sessions = λ s other. let apart : (sf == s) ≡ false = ground arith in rw apart refl;
        queues = λ p. refl;
        counted = rw there (omega (arith, u.counted, once));
        no_member = rw there u.gone;
        members = λ q nq other. rw there (u.others q nq other);
        bindings = λ b other. let apart : (ss.bind == b) ≡ false = ground arith in rw apart refl;
      })

  destroy_session-Ends :
      (w : Broker N) (sf : Ptr) (ss : SessionData)
      → Tied w
      → w.sessions sf ≡ some ss
      → Ends w sf ss (destroy_session w sf)
  unfolding destroy_session leave
  destroy_session-Ends w sf ss t is = elim (Bool-cases (ss.bind == null)) [
    | inl e ↦ rw (is, e) (unbound (ground arith))
    | inr e ↦
        let ne : ss.bind ≢ null = ground arith in
        let (own_queue, once) = t.bound sf ss is ne in
        rw (is, e)
          (left-Ends w sf ss (unsubscribe (w.bindings ss.bind) ss.msgq) ne once (
            unsubscribe-Unsubscribes (w.bindings ss.bind) ss.msgq own_queue
              (InOrder-IsValid (t.valid ss.bind))))
  ]

  -- In every state that the broker comes to from its start without a crash, while no binding is full
  -- when a message comes and `malloc` returns no memory that a session uses, the end of a session with
  -- data has one of three outcomes. A session that is bound to nothing loses its data, and nothing else changes. If it is
  -- the only member of its binding, the broker crashes, since it reads the binding after it was freed.
  -- If the binding has other members, the session leaves it, loses its data, and all other members,
  -- bindings, queues and sessions are as before.
  pub session_end-Ends :
      (send : Ptr → Bytes → N → N × Option ℕ) (malloc : N → ℕ → Option Bytes) (fuel : ℕ)
      (w : Broker N) (sf : Ptr) (ss : SessionData)
      → Reach send malloc fuel w
      → w.sessions sf ≡ some ss
      → Ends w sf ss (session_end w sf)
  unfolding session_end
  session_end-Ends send malloc fuel w sf ss r is =
      destroy_session-Ends w sf ss (Reach-Tied send malloc fuel r) is
