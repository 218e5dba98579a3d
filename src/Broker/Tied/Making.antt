-- ===== src/Broker/Tied/Making.antt =====
-- The new queue and the new binding of a subscription of stomp/stomp_subr.c.
use lmq.Prelude.{
  subst, ◌/◌, ◌≡◌, ◌≢◌, refl, inl, inr, true, false, Option, none, some, ◌==◌, if◌then◌else◌,
  if-both, option-both, Bool-cases, arith,
}
use lmq.Pbuf.{Bytes}
use lmq.Dlist.{Ptr, null}
use lmq.Buckets.{Buckets}
use lmq.MsgQueue.{MsgQueue}
use lmq.MsgQueue
use lmq.MsgQueue.Callback.{CallsNext, create-CallsNext}
use lmq.Binding.Turns.{InTurn}
use lmq.Binding.{Binding, Kind, first_members_max, create_subscribed}
use lmq.Broker.{Broker, SessionData, with_queue, with_binding}
use lmq.Broker.Subscribing.{
  Fresh, queue_size, made_queue, kind_of, queue_for, new_from, new_binding,
}
use lmq.Broker.Tied.{Tied, Same-Tied, Like-refl}
use lmq.Broker.Tied.Adding.{FirstTurn, kind_of-FirstTurn, Lone, create_subscribed-Lone}

module _ {ℓ} {N : Type ℓ} where
  -- The memory that `malloc` returns is in use by no session, and no binding is full, so that none is
  -- extended.
  pub record IsFresh (fr : Fresh) (w : Broker N) : Type 0 where
    pub queue :
        (s : Ptr) (x : SessionData) → w.sessions s ≡ some x → fr.queue ≢ null → x.msgq ≢ fr.queue
    pub binding :
        (s : Ptr) (x : SessionData)
        → w.sessions s ≡ some x
        → fr.binding ≢ null
        → x.bind ≢ fr.binding
    pub room : (b : Ptr) → (w.bindings b).members_count ≢ (w.bindings b).members_max

  pub with_table-Tied :
      (w : Broker N) (table : Buckets) → Tied w → Tied (record w { table = table })
  with_table-Tied w table t =
      Same-Tied {w = w}
        (record {
          sessions = λ s. Like-refl (w.sessions s);
          queues = λ p. refl;
          members = λ b. refl;
          limits = λ b. refl;
          counts = λ b. refl;
          turns = λ b k. k;
        })
        t

  new_queue-Tied :
      (w : Broker N) (p : Ptr) (q : MsgQueue)
      → Tied w
      → ((s : Ptr) (x : SessionData) → w.sessions s ≡ some x → x.msgq ≢ p)
      → Tied (with_queue w p q)
  new_queue-Tied w p q t fresh = record {
    valid = t.valid;
    member = λ c r ne lt.
        let own = t.member c r ne lt in
        record {
          sf = own.sf;
          ss = own.ss;
          there = own.there;
          own = own.own;
          bound = own.bound;
          some_binding = own.some_binding;
        };
    calls = λ s x there ne.
        let apart : (p == x.msgq) ≡ false = ground (arith, fresh s x there) in
        rw apart (t.calls s x there ne);
    bound = t.bound;
  }

  module _ (fr : Fresh) (w : Broker N) (sf : Ptr) (ss : SessionData) where
    -- The state with the queue of the session
    pub data Queued : Option (Broker N × Ptr) → Type ℓ where
      no_queue : Queued none
      queued :
          (w' : Broker N) (mq : Ptr)
          → Tied w'
          → ((s : Ptr) → w'.sessions s ≡ w.sessions s)
          → ((b : Ptr) → w'.bindings b ≡ w.bindings b)
          → mq ≢ null
          → (w'.queues mq).callback ≡ some sf
          → Queued (some (w', mq))

    -- The state with the new binding of the queue
    pub data Made (mq : Ptr) : Option (Broker N) → Type ℓ where
      nothing : Made mq none
      made :
          (b : Binding) (table : Buckets)
          → fr.binding ≢ null
          → Lone mq (some b)
          → Made mq (some (record (with_binding w fr.binding b) { table = table }))

    new_from-Made :
        (mq : Ptr) (o : Option Binding)
        → fr.binding ≢ null
        → Lone mq o
        → Made mq (new_from w fr.binding o)
    unfolding new_from
    new_from-Made mq none ne l = nothing
    new_from-Made mq (some b) ne l = made b _ ne l

    kind-Made :
        (mq : Ptr) (dest : Bytes) (k : Kind)
        → mq ≢ null
        → InTurn k first_members_max
        → Made mq (
            new_from w fr.binding (
              create_subscribed
                (if fr.binding == null then false else true)
                (fr.junk (first_members_max / 2))
                k
                dest
                mq))
    kind-Made mq dest k ne turn = elim (Bool-cases (fr.binding == null)) [
      | inl e ↦ rw e (unfold new_from create_subscribed in nothing)
      | inr e ↦ rw e (
          new_from-Made mq _ (ground arith)
            (create_subscribed-Lone mq ne true (fr.junk (first_members_max / 2)) k dest turn))
    ]

    made-Queued :
        Tied w
        → IsFresh fr w
        → (o : Option MsgQueue) → CallsNext (some sf) o
        → Queued (elim (made_queue o fr.queue) [
          | none ↦ none
          | some r ↦ some (with_queue w r.0 r.1, r.0)
        ])
    made-Queued t fresh none c = no_queue
    made-Queued t fresh (some q) c = elim (Bool-cases (fr.queue == null)) [
      | inl e ↦ rw e no_queue
      | inr e ↦
          let ne : fr.queue ≢ null = ground arith in
          let here : (fr.queue == fr.queue) ≡ true = ground arith in
          rw e (
            queued (with_queue w fr.queue q) fr.queue
              (new_queue-Tied w fr.queue q t λ s x there. fresh.queue s x there ne) (λ s. refl)
              (λ b. refl) ne (rw here c))
    ]

    pub new_binding-Made :
        (mq : Ptr) (dest : Bytes) → mq ≢ null → Made mq (new_binding fr w mq dest)
    unfolding new_binding
    new_binding-Made mq dest ne =
        option-both (Made mq) (kind_of dest) none
          (λ k. new_from w fr.binding (
            create_subscribed (if fr.binding == null then false else true)
              (fr.junk (first_members_max / 2)) k dest mq))
          (λ e. nothing) λ k e. kind-Made mq dest k ne (subst FirstTurn e (kind_of-FirstTurn dest))

    pub queue_for-Queued :
        Tied w → w.sessions sf ≡ some ss → IsFresh fr w → Queued (queue_for fr w sf ss)
    unfolding queue_for
    queue_for-Queued t is fresh =
        let new = MsgQueue.create fr.block queue_size (some sf) in
        if-both Queued (ss.msgq == null)
          (elim (made_queue new fr.queue) [
            | none ↦ none
            | some r ↦ some (with_queue w r.0 r.1, r.0)
          ])
          (some (w, ss.msgq))
          (λ e. made-Queued t fresh new (create-CallsNext fr.block queue_size (some sf)))
          λ e.
            let ne : ss.msgq ≢ null = ground arith in
            queued w ss.msgq t (λ s. refl) (λ b. refl) ne (t.calls sf ss is ne)
