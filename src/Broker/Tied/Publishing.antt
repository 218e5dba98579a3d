-- ===== src/Broker/Tied/Publishing.antt =====
-- That a SEND to a topic of stomp/stomp_proto.c reaches every session that is bound to it.
use lmq.Prelude.{
  ℕ, ◌≤◌, ◌<◌, ◌≡◌, ◌≢◌, sym, subst, ◌∙◌, inl, inr, ◌⊎◌, refl, true, Option, some, List, [], ◌∷◌,
  ◌==◌, Bool-cases, arith,
}
use lmq.Pbuf.{Bytes, ok}
use lmq.Dlist.{Ptr, null}
use lmq.MsgQueue.Rep.{Holds}
use lmq.Binding.{topic}
use lmq.Binding.Delivery.{members_of}
use lmq.Binding.Members.{times}
use lmq.BindingHash
use lmq.Stomp.Parse.{Msg}
use lmq.Stomp.Header.{skip_command}
use lmq.Broker.{Broker, SessionData, Outcome, done, names}
use lmq.Broker.Resume.{TakesBounded}
use lmq.Broker.Handlers.{destination, connected_send}
use lmq.Broker.Topic.{Subscriber, queues_of, Apart, Ready, AllReady, AllDelivered}
use lmq.Broker.Publishing.{passed_on, Published, connected_send-Published}
use lmq.Broker.Tied.{Tied}
use lmq.Broker.Tied.Gathering.{
  times-members_of, Prepared, AllBound, Gathered, gather, Disjoint-of, member_once,
}
use lmq.Broker.Tied.Reach.{Reach, Reach-Tied}

module _ {ℓ} {N : Type ℓ} (send : Ptr → Bytes → N → N × Option ℕ) (malloc : N → ℕ → Option Bytes)
    (bounded : TakesBounded send) where
  abbrev pub Among : Subscriber → List Subscriber → Type 0
  Among s [] = ⊥
  Among s (t ∷ r) = (t ≡ s) ⊎ Among s r

  -- Every session that is bound to the topic is one of the subscribers, which have the message in the
  -- order of the members, and every other session is as before.
  pub record Reaches (iov : List Bytes) (w : Broker N) (bi : Ptr) (o : Outcome (Broker N))
      : Type ℓ where
    pub after : Broker N
    pub ends : o ≡ done after true
    pub subs : List Subscriber
    pub order : members_of (w.bindings bi).members ≡ queues_of subs
    pub all : AllDelivered send malloc bounded iov w.env after subs
    pub bound :
        (sf : Ptr) (ss : SessionData)
        → w.sessions sf ≡ some ss
        → ss.bind ≡ bi
        → (held : List Bytes) × Holds (w.queues ss.msgq) held
          × Among (record { sf = sf; queue = ss.msgq; held = held }) subs
    pub others :
        (sf : Ptr) (ss : SessionData)
        → w.sessions sf ≡ some ss
        → ss.bind ≢ bi
        → (after.sessions sf ≡ some ss) × (after.queues ss.msgq ≡ w.queues ss.msgq)

  module _ (iov : List Bytes) (w : Broker N) (t : Tied w) (bi : Ptr) where
    -- The subscriber with this queue
    subscriber_with :
        (q : Ptr) (subs : List Subscriber)
        → AllReady send malloc bounded iov w subs
        → 0 < times q (queues_of subs)
        → (s : Subscriber) × (s.queue ≡ q) × Ready send malloc bounded iov w s × Among s subs
    unfolding times
    subscriber_with q [] vs lt = absurd (omega arith)
    subscriber_with q (s ∷ r) vs lt = elim (Bool-cases (s.queue == q)) [
      | inl e ↦ (s, ground arith, vs.0, inl refl)
      | inr e ↦
          let (t, same, v, i) = subscriber_with q r vs.1 (ground (arith, lt)) in (t, same, v, inr i)
    ]

    same_session :
        (sf : Ptr) (ss : SessionData) (s : Subscriber)
        → w.sessions sf ≡ some ss
        → s.queue ≡ ss.msgq
        → Ready send malloc bounded iov w s
        → s.sf ≡ sf
    same_session sf ss s is same v =
        let calls : (w.queues ss.msgq).callback ≡ some s.sf =
          subst (λ k. (w.queues k).callback ≡ some s.sf) same v.callback in
        ground (arith, calls, t.calls sf ss is (λ k. v.some_queue (same ∙ k)))

    -- A session that is not bound to the topic is none of its subscribers.
    Apart-of_bound :
        (sf : Ptr) (ss : SessionData) (subs : List Subscriber)
        → w.sessions sf ≡ some ss
        → ss.bind ≢ bi
        → AllReady send malloc bounded iov w subs
        → AllBound send malloc bounded iov w t bi subs
        → Apart (record { sf = sf; queue = ss.msgq; held = [] }) subs
    Apart-of_bound sf ss [] is ne vs bs = tt
    Apart-of_bound sf ss (s ∷ r) is ne vs bs =
        let (x, there, b) = bs.0 in
        let sessions : sf ≢ s.sf = λ k.
          let is' : w.sessions s.sf ≡ some ss = subst (λ j. w.sessions j ≡ some ss) k is in
          ne (ground (arith, is', there, b)) in
        (
          (sessions, λ k. sessions (sym (same_session sf ss s is (sym k) vs.0))),
          Apart-of_bound sf ss r is ne vs.1 bs.1,
        )

    Published-Reaches :
        (o : Outcome (Broker N))
        (g : Gathered send malloc bounded iov w t bi (w.bindings bi).members)
        → bi ≢ null
        → Published send malloc bounded iov w g.subs o
        → Reaches iov w bi o
    Published-Reaches o g some_bi p = record {
      after = p.after;
      ends = p.ends;
      subs = g.subs;
      order = g.same;
      all = p.all;
      bound = λ sf ss is b.
          let (own_queue, once) = t.bound sf ss is (λ k. some_bi (sym b ∙ k)) in
          let once' : times ss.msgq (w.bindings bi).members ≡ 1 =
            subst (λ k. times ss.msgq (w.bindings k).members ≡ 1) b once in
          let listed : 0 < times ss.msgq (queues_of g.subs) =
            subst (λ k. 0 < times ss.msgq k) g.same
              (omega (arith, times-members_of ss.msgq (w.bindings bi).members own_queue)) in
          let (s, same, v, i) = subscriber_with ss.msgq g.subs g.all listed in
          let session = same_session sf ss s is same v in
          (
            s.held,
            subst (λ k. Holds (w.queues k) s.held) same v.holds,
            subst (λ t. Among t g.subs)
                (λ j. record { sf = session j; queue = same j; held = s.held }) i,
          );
      others = λ sf ss is ne.
          let spared =
            p.others (record { sf = sf; queue = ss.msgq; held = [] })
              (Apart-of_bound sf ss g.subs is ne g.all g.bound) in
          (spared.1 ∙ is, spared.0);
    }

  -- In every state that the broker comes to from its start without a crash, while no binding is full
  -- when a message comes and `malloc` returns no memory that a session uses, let a SEND have a
  -- destination that is a topic in the table. Let each session that is bound to this topic send nothing
  -- at the moment, and have room for the message in the buffer that its message queue is writing. Then
  -- the handler succeeds and each of these sessions gets the message, in the order of the members of
  -- the topic: its socket is asked once, for the oldest message, and what is to be sent then is what its
  -- message queue held and the message behind, but for the bytes that the socket says to have taken.
  -- Every session that is not bound to the topic, and its message queue, is as before. None of the
  -- messages of the sessions is empty, and the socket takes no more than it is given.
  pub connected_send-Reaches :
      (fuel : ℕ) (w : Broker N) (msg : Msg) (dest body : Bytes) (bi : Ptr)
      → Reach send malloc fuel w
      → destination msg ≡ ok dest
      → skip_command msg.buf ≡ some body
      → BindingHash.lookup (names w) fuel w.table dest ≡ some bi
      → bi ≢ null
      → (w.bindings bi).kind ≡ topic
      → ((sf : Ptr) (ss : SessionData)
          → w.sessions sf ≡ some ss
          → ss.bind ≡ bi
          → Prepared send malloc bounded (passed_on send malloc bounded w msg body) w ss)
      → Reaches
          (passed_on send malloc bounded w msg body)
          w
          bi
          (connected_send send malloc fuel w msg)
  connected_send-Reaches fuel w msg dest body bi r to starts found ne k ready =
      let t = Reach-Tied send malloc fuel r in
      let iov = passed_on send malloc bounded w msg body in
      let g = gather send malloc bounded iov w t bi ready (w.bindings bi).members (t.member bi) in
      let once = λ (q : Ptr) (nq : q ≢ null).
        subst (λ l. times q l ≤ 1) g.same
          (rw (times-members_of q (w.bindings bi).members nq)
            (member_once send malloc bounded iov w t bi q nq)) in
      Published-Reaches iov w t bi _ g ne (
        connected_send-Published send malloc bounded fuel w msg dest body bi g.subs to starts found
          ne k g.same (Disjoint-of send malloc bounded iov w t bi g.subs g.all once) g.all)
