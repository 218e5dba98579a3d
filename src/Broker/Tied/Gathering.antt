-- ===== src/Broker/Tied/Gathering.antt =====
-- The subscribers of a topic of stomp/stomp_subr.c: the sessions that are bound to it.
use lmq.Prelude.{
  ℕ, ◌+◌, ◌≤◌, ◌<◌, ◌≡◌, ◌≢◌, refl, sym, ap, subst, ◌∙◌, inl, inr, Option, some, List, [], ◌∷◌,
  ◌==◌, Bool-cases, arith, length,
}
use lmq.Pbuf.{Bytes, free_len}
use lmq.Dlist.{Ptr, null}
use lmq.MsgQueue.{header_size, iov_bytes}
use lmq.MsgQueue.Rep.{Holds}
use lmq.MsgQueue.Room.{pbuf_w_of}
use lmq.Binding.Members.{times}
use lmq.Binding.Delivery.{members_of}
use lmq.Broker.{Broker, SessionData}
use lmq.Broker.Resume.{TakesBounded}
use lmq.Broker.Draining.{AllFull}
use lmq.Broker.Topic.{Subscriber, queues_of, Apart, Disjoint, Ready, AllReady}
use lmq.Broker.Tied.{Owner, Tied}

pub times-members_of : (q : Ptr) (ms : List Ptr) → q ≢ null → times q (members_of ms) ≡ times q ms
unfolding times members_of
times-members_of q [] ne = refl
times-members_of q (p ∷ ps) ne = elim (Bool-cases (p == null)) [
  | inl e ↦ ground (arith, times-members_of q ps ne)
  | inr e ↦ ground (arith, times-members_of q ps ne)
]

module _ {ℓ} {N : Type ℓ} (send : Ptr → Bytes → N → N × Option ℕ) (malloc : N → ℕ → Option Bytes)
    (bounded : TakesBounded send) where
  -- The session sends nothing now, and its queue holds messages, of which none is empty, and has room
  -- for another.
  pub record Prepared (iov : List Bytes) (w : Broker N) (ss : SessionData) : Type 0 where
    pub held : List Bytes
    pub quiet : ss.slen ≡ 0
    pub holds : Holds (w.queues ss.msgq) held
    pub full : AllFull held
    pub room : header_size + length (iov_bytes iov) ≤ free_len (pbuf_w_of (w.queues ss.msgq))

  module _ (iov : List Bytes) (w : Broker N) (t : Tied w) (bi : Ptr) where
    -- The subscribers are sessions that are bound to the topic.
    abbrev pub AllBound : List Subscriber → Type 0
    AllBound [] = Unit {0}
    AllBound (s ∷ r) = ((x : SessionData) × (w.sessions s.sf ≡ some x) × (x.bind ≡ bi)) × AllBound r

    pub record Gathered (ms : List Ptr) : Type ℓ where
      pub subs : List Subscriber
      pub same : members_of ms ≡ queues_of subs
      pub all : AllReady send malloc bounded iov w subs
      pub bound : AllBound subs

    pub subscriber_of :
        (q : Ptr) (own : Owner w bi q) (p : Prepared iov w own.ss)
        → q ≢ null
        → Ready send malloc bounded iov w (record { sf = own.sf; queue = q; held = p.held })
    subscriber_of q own p ne = record {
      ss = own.ss;
      session = own.there;
      own = own.own;
      some_queue = ne;
      quiet = p.quiet;
      callback =
          subst (λ k. (w.queues k).callback ≡ some own.sf) own.own
            (t.calls own.sf own.ss own.there (λ e. ne (sym own.own ∙ e)));
      holds = subst (λ k. Holds (w.queues k) p.held) own.own p.holds;
      full = p.full;
      room =
          subst (λ k. header_size + length (iov_bytes iov) ≤ free_len (pbuf_w_of (w.queues k)))
            own.own p.room;
    }

    pub gather :
        (ready : (sf : Ptr) (ss : SessionData)
          → w.sessions sf ≡ some ss
          → ss.bind ≡ bi
          → Prepared iov w ss)
        (ms : List Ptr)
        → ((q : Ptr) → q ≢ null → 0 < times q ms → Owner w bi q)
        → Gathered ms
    unfolding members_of times
    gather ready [] each = record { subs = []; same = refl; all = tt; bound = tt }
    gather ready (p ∷ ps) each =
        let rest = gather ready ps λ q ne lt. each q ne (ground (arith, lt)) in
        elim (Bool-cases (p == null)) [
          | inl e ↦ record {
            subs = rest.subs;
            same = rw e rest.same;
            all = rest.all;
            bound = rest.bound;
          }
          | inr e ↦
              let ne : p ≢ null = ground arith in
              let own = each p ne (ground arith) in
              let ready' = ready own.sf own.ss own.there own.bound in
              record {
                subs = record { sf = own.sf; queue = p; held = ready'.held } ∷ rest.subs;
                same = rw e (ap (λ k. p ∷ k) rest.same);
                all = (subscriber_of p own ready' ne, rest.all);
                bound = ((own.ss, own.there, own.bound), rest.bound);
              }
        ]

    pub Apart-from :
        (s : Subscriber) (subs : List Subscriber)
        → Ready send malloc bounded iov w s
        → AllReady send malloc bounded iov w subs
        → times s.queue (queues_of subs) ≡ 0
        → Apart s subs
    unfolding times
    Apart-from s [] v vs e = tt
    Apart-from s (u ∷ us) v vs e =
        let queues : s.queue ≢ u.queue = λ k. ground (arith, e, k) in
        let sessions : s.sf ≢ u.sf = λ k.
          let is : w.sessions u.sf ≡ some v.ss =
            subst (λ j. w.sessions j ≡ some v.ss) k v.session in
          queues (ground (arith, is, vs.0.session, v.own, vs.0.own)) in
        ((sessions, queues), Apart-from s us v vs.1 (ground (arith, e)))

    pub Disjoint-of :
        (subs : List Subscriber)
        → AllReady send malloc bounded iov w subs
        → ((q : Ptr) → q ≢ null → times q (queues_of subs) ≤ 1)
        → Disjoint subs
    unfolding times
    Disjoint-of [] vs once = tt
    Disjoint-of (s ∷ r) vs once =
        let none_more : times s.queue (queues_of r) ≡ 0 =
          ground (arith, once s.queue vs.0.some_queue) in
        (Apart-from s r vs.0 vs.1 none_more, Disjoint-of r vs.1 λ q ne. ground (arith, once q ne))

    -- A member of the topic is a member once.
    pub member_once : (q : Ptr) → q ≢ null → times q (w.bindings bi).members ≤ 1
    member_once q ne = elim (Bool-cases (times q (w.bindings bi).members == 0)) [
      | inl e ↦ ground arith
      | inr e ↦
          let own = t.member bi q ne (ground arith) in
          let once =
            (t.bound own.sf own.ss own.there (λ k. own.some_binding (sym own.bound ∙ k))).1 in
          let once' : times q (w.bindings bi).members ≡ 1 =
            subst (λ k. times k (w.bindings bi).members ≡ 1) own.own
              (subst (λ k. times own.ss.msgq (w.bindings k).members ≡ 1) own.bound once) in
          omega arith
    ]
