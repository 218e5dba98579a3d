-- ===== src/Broker/Leaving.antt =====
-- How sessions of stomp/stomp_subr.c and stomp/stomp_proto.c end.
use lmq.Prelude.{
  ℕ, ◌<◌, ◌≡◌, ◌≢◌, refl, ap, ◌∙◌, inl, inr, true, false, Option, none, some, List, ◌==◌,
  Bool-cases, arith,
}
use lmq.Pbuf.{Bytes}
use lmq.Dlist.{Ptr, null}
use lmq.Binding.{Unsubscribed, reads_freed, kept, unsubscribe}
use lmq.Binding.Members.{IsValid, times}
use lmq.Binding.Delivery.{Unsubscribes, unsubscribe-Unsubscribes}
use lmq.Stomp.Parse.{disconnect, State, connected, Command, commands, Msg, parse}
use lmq.Broker.{
  Broker, SessionData, Outcome, done, crash, stuck, and_then, with_session, state_of, get_state,
  set_state, left, leave, destroy_from, destroy_session,
}
use lmq.Broker.Subscribing.{Fresh}
use lmq.Broker.Handlers.{session_end, connected_disconnect, handle, handled, msg_input}

module _ {ℓ} {N : Type ℓ} where
  left-crash :
      (w : Broker N) (bi q : Ptr) (ms : List Ptr) (c : ℕ) (u : Unsubscribed)
      → Unsubscribes q ms c u
      → 0 < c
      → times q ms ≡ c
      → left w bi u ≡ crash
  left-crash w bi q ms c reads_freed u some_member only = refl
  left-crash w bi q ms c (kept ms' c') u some_member only =
      absurd (ground (arith, u.counted, u.some_left))

  leave-crash :
      (w : Broker N) (bi q : Ptr)
      → q ≢ null
      → IsValid (w.bindings bi)
      → 0 < (w.bindings bi).members_count
      → times q (w.bindings bi).members ≡ (w.bindings bi).members_count
      → leave w bi q ≡ crash
  unfolding leave
  leave-crash w bi q ne v some_member only =
      left-crash w bi q (w.bindings bi).members (w.bindings bi).members_count
        (unsubscribe (w.bindings bi) q) (unsubscribe-Unsubscribes (w.bindings bi) q ne v)
        some_member only

  -- A session that ends as the only subscriber of a valid binding makes the broker read the binding
  -- after it was freed.
  pub session_end-crash :
      (w : Broker N) (sf : Ptr) (ss : SessionData)
      → w.sessions sf ≡ some ss
      → ss.bind ≢ null
      → ss.msgq ≢ null
      → IsValid (w.bindings ss.bind)
      → 0 < (w.bindings ss.bind).members_count
      → times ss.msgq (w.bindings ss.bind).members ≡ (w.bindings ss.bind).members_count
      → session_end w sf ≡ crash
  unfolding session_end destroy_session
  session_end-crash w sf ss e nb nq v some_member only =
      let t : (ss.bind == null) ≡ false = ground arith in
      rw e (rw t (rw (leave-crash w ss.bind ss.msgq nq v some_member only) refl))

  -- The end of a session: the broker crashes, or the session has no data any more.
  abbrev pub Gone : Ptr → Outcome (Broker N) → Type 0
  Gone sf crash = Unit {0}
  Gone sf stuck = ⊥
  Gone sf (done w r) = (r ≡ true) × (w.sessions sf ≡ none)

  gone_data : (w : Broker N) (sf : Ptr) → (with_session w sf none).sessions sf ≡ none
  gone_data w sf = let t : (sf == sf) ≡ true = ground arith in rw t refl

  left-Gone :
      (w : Broker N) (sf bi : Ptr) (u : Unsubscribed)
      → Gone sf (and_then (left w bi u) λ w' r. done (with_session w' sf none) true)
  left-Gone w sf bi reads_freed = tt
  left-Gone w sf bi (kept ms c) = (refl, gone_data w sf)

  destroy_from-Gone :
      (w : Broker N) (sf : Ptr) (o : Option SessionData)
      → w.sessions sf ≡ o
      → Gone sf (destroy_from w sf o)
  unfolding leave
  destroy_from-Gone w sf none e = (refl, e)
  destroy_from-Gone w sf (some ss) e = elim (Bool-cases (ss.bind == null)) [
    | inl t ↦ rw t (refl, gone_data w sf)
    | inr t ↦ rw t (left-Gone w sf ss.bind (unsubscribe (w.bindings ss.bind) ss.msgq))
  ]

  handled-Gone :
      (sf : Ptr) (next : State) (o : Outcome (Broker N))
      → Gone sf o
      → and_then o (handled sf next) ≡ crash
  unfolding set_state handled
  handled-Gone sf next crash g = refl
  handled-Gone sf next stuck g = absurd g
  handled-Gone sf next (done w true) g = rw (g.1) refl
  handled-Gone sf next (done w false) g = absurd (cc)

  get_state-connected :
      (w : Broker N) (sf : Ptr) (ss : SessionData)
      → w.sessions sf ≡ some ss
      → ss.state ≡ connected
      → get_state w sf ≡ some connected
  unfolding get_state
  get_state-connected w sf ss e st = ap state_of e ∙ ap (λ s. some s) st

  -- A session that is connected and has data and sends DISCONNECT makes the broker crash: the
  -- handler frees the data of the session, and the next state is then stored through NULL.
  pub msg_input-disconnect :
      (send : Ptr → Bytes → N → N × Option ℕ) (malloc : N → ℕ → Option Bytes) (fuel : ℕ)
      (fr : Fresh) (w : Broker N) (sf : Ptr) (buf : Bytes) (len : ℕ) (ss : SessionData) (msg : Msg)
      → w.sessions sf ≡ some ss
      → ss.state ≡ connected
      → parse buf len (some (commands connected)) ≡ some (some msg)
      → (c : Command) → msg.cmd ≡ some c
      → c.code ≡ disconnect
      → msg_input send malloc fuel fr w sf buf len ≡ crash
  unfolding msg_input handle connected_disconnect destroy_session
  msg_input-disconnect send malloc fuel fr w sf buf len ss msg e st p c cmd code =
      let gone =
        handled-Gone sf c.next_state (destroy_from w sf (some ss))
          (destroy_from-Gone w sf (some ss) e) in
      rw (get_state-connected w sf ss e st) (rw p (rw cmd (rw code (rw e gone))))
