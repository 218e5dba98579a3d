-- ===== src/Main/Loop/Calm.antt =====
-- What the functions of timers leave in libsf/sf_main.c: the other timers, and their protocols.
use lmq.Prelude.{
  ℕ, ◌<◌, ◌≡◌, ◌≢◌, refl, sym, subst, ◌∙◌, Bool, true, false, Option, none, some, List, [], ◌∷◌,
  ◌==◌, if-both, arith, length,
}
use lmq.Dlist.{Ptr, null, mem}
use lmq.Proto.{ProtoCb}
use lmq.Proto
use lmq.Timer.{Timers, Func, session_timeout, close, cancel}
use lmq.Timer.Removing.{IsListed, cancel_absent}
use lmq.Session.{Sessions}
use lmq.Session
use lmq.Session.Traffic
use lmq.Socket.Instance.{Object, listening, whole, Instance, base_of, at, free, pcb_of, destroy}
use lmq.Socket.Events.{Run, done, crash}
use lmq.Main.{destroy_object, destroy_sock, destroy_session}
use lmq.Main.Loop.{call}

module _ {ℓ} {S : Type ℓ} where
  -- The functions of a protocol for timeouts and ends leave the timers alone.
  abbrev pub QuietCb : Option (ProtoCb (Sessions S)) → Type ℓ
  QuietCb none = Unit
  QuietCb (some cb) =
      (p : Ptr) (s : Sessions S)
      → ((Proto.call cb.timeout p s).0.timers ≡ s.timers)
        × ((Proto.call cb.session_end p s).0.timers ≡ s.timers)

  abbrev pub Quiet : List (Ptr × Object S) → Type ℓ
  Quiet [] = Unit
  Quiet ((q, o) ∷ r) = QuietCb (base_of o).pcb × Quiet r

  abbrev QuietObject : Option (Object S) → Type ℓ
  QuietObject none = Unit
  QuietObject (some o) = QuietCb (base_of o).pcb

  at-QuietObject : (os : List (Ptr × Object S)) (p : Ptr) → Quiet os → QuietObject (at p os)
  unfolding at
  at-QuietObject [] p v = tt
  at-QuietObject ((q, o) ∷ r) p v =
      if-both QuietObject (q == p) (some o) (at p r) (λ e. v.0) λ e. at-QuietObject r p v.1

  pcb-QuietCb :
      (o : Option (Object S))
      → QuietObject o
      → QuietCb (elim o [ none ↦ none | some b ↦ (base_of b).pcb ])
  pcb-QuietCb none v = tt
  pcb-QuietCb (some b) v = v

  pcb_of-QuietCb : (os : List (Ptr × Object S)) (p : Ptr) → Quiet os → QuietCb (pcb_of os p)
  unfolding pcb_of
  pcb_of-QuietCb os p v = pcb-QuietCb (at p os) (at-QuietObject os p v)

  free-Quiet : (p : Ptr) (os : List (Ptr × Object S)) → Quiet os → Quiet (free p os)
  unfolding free
  free-Quiet p [] v = tt
  free-Quiet p ((q, o) ∷ r) v =
      if-both Quiet (q == p) r ((q, o) ∷ free p r) (λ e. v.1) λ e. (v.0, free-Quiet p r v.1)

  timeout-timers :
      (o : Option (ProtoCb (Sessions S))) (p : Ptr) (s : Sessions S)
      → QuietCb o
      → (Proto.proto_timeout o p s).0.timers ≡ s.timers
  unfolding Proto.proto_timeout
  timeout-timers none p s v = refl
  timeout-timers (some cb) p s v = (v p s).0

  end-timers :
      (o : Option (ProtoCb (Sessions S))) (p : Ptr) (s : Sessions S)
      → QuietCb o
      → (Proto.proto_end o p s).0.timers ≡ s.timers
  unfolding Proto.proto_end
  end-timers none p s v = refl
  end-timers (some cb) p s v = (v p s).1

  -- What a timer's function leaves when `ti` are the timers: these, and protocols that leave them
  -- alone. It crashes only if it closes a session.
  pub data Calm (ti : Timers) (f : Option Func) : Run (Instance S) → Type ℓ where
    calm :
        {w : Instance S} {ok : Bool}
        → w.sessions.timers ≡ ti
        → Quiet w.sockets
        → Calm ti f (done w ok)
    crashed : f ≡ some close → Calm ti f crash

  destroy_object-Calm :
      (w : Instance S) (ti : Timers) (p : Ptr) (o : Option (Object S))
      → w.sessions.timers ≡ ti
      → Quiet w.sockets
      → Calm ti (some close) (destroy_object w p o)
  unfolding destroy_object destroy
  destroy_object-Calm w ti p none e v = crashed refl
  destroy_object-Calm w ti p (some (listening b)) e v = crashed refl
  destroy_object-Calm w ti p (some (whole so)) e v =
      if-both (λ w'. Calm ti (some close) (done w' true)) so.dont_close _ _ (λ t. calm e v)
        λ t. calm e (free-Quiet p w.sockets v)

  module _ (fuel : ℕ) (t : Ptr) {ti : Timers} {ts : List Ptr} (l : IsListed ti ts)
      (enough : length ts < fuel) (gone : mem t ts ≡ false) (some_timer : t ≢ null) where
    destroy_session-Calm :
        (w : Instance S)
        → w.sessions.timers ≡ ti
        → Quiet w.sockets
        → Calm ti (some close) (destroy_session fuel w t)
    unfolding destroy_session destroy_sock Session.destroy Session.unregister
    destroy_session-Calm w e v =
        let none_null : (t == null) ≡ false = ground arith in
        let same : cancel fuel w.sessions.timers t ≡ some ti =
          subst (λ k. cancel fuel k t ≡ some ti) (sym e) (cancel_absent t l fuel enough gone) in
        rw none_null (
          rw same (
            destroy_object-Calm _ ti _ _
              (end-timers (pcb_of w.sockets (w.sessions.info t).sock) t
                (record w.sessions { timers = ti })
                (pcb_of-QuietCb w.sockets (w.sessions.info t).sock v))
              v))

    pub call-Calm :
        (w : Instance S) (f : Option Func)
        → w.sessions.timers ≡ ti
        → Quiet w.sockets
        → Calm ti f (call fuel w t f)
    unfolding call Traffic.session_timeout
    call-Calm w none e v = calm e v
    call-Calm w (some session_timeout) e v =
        calm
          (timeout-timers (pcb_of w.sockets (w.sessions.info t).sock) t w.sessions
              (pcb_of-QuietCb w.sockets (w.sessions.info t).sock v)
            ∙ e)
          v
    call-Calm w (some close) e v = destroy_session-Calm w e v
