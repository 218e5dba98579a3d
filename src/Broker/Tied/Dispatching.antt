-- ===== src/Broker/Tied/Dispatching.antt =====
-- That a SEND to a queue of stomp/stomp_proto.c reaches one session that is bound to it.
use lmq.Prelude.{
  ◌<◌, suc, get_or, ℕ, ◌≡◌, ◌≢◌, refl, sym, subst, ◌∙◌, true, Option, some, List, [], arith,
}
use lmq.Pbuf.{Bytes, ok}
use lmq.Dlist.{Ptr, null}
use lmq.MsgQueue.Rep.{Holds}
use lmq.Binding.{queue}
use lmq.Binding.Members.{times}
use lmq.Binding.Delivery.{turn, Passed, next_member-Chosen}
use lmq.Binding.Turns.{InTurn, Chosen-member}
use lmq.BindingHash
use lmq.Stomp.Parse.{Msg}
use lmq.Stomp.Header.{skip_command}
use lmq.Broker.{Broker, SessionData, Outcome, done, names}
use lmq.Broker.Resume.{TakesBounded}
use lmq.Broker.Handlers.{destination, connected_send}
use lmq.Broker.Topic.{Delivered}
use lmq.Broker.Publishing.{passed_on}
use lmq.Broker.Dispatching.{Dispatched, connected_send-Dispatched}
use lmq.Broker.Tied.{Owner, Tied}
use lmq.Broker.Tied.Parting.{only_caller}
use lmq.Broker.Tied.Gathering.{Prepared, subscriber_of}
use lmq.Broker.Tied.Reach.{Reach, Reach-Tied}

module _ {ℓ} {N : Type ℓ} (send : Ptr → Bytes → N → N × Option ℕ) (malloc : N → ℕ → Option Bytes)
    (bounded : TakesBounded send) where
  -- The place `d` places behind the turn of the queue, in cyclic order
  abbrev pub place_of : Broker N → Ptr → ℕ → ℕ → Ptr
  place_of w bi round d =
      get_or (w.bindings bi).members (turn (w.bindings bi).members_max round d) null

  -- One session that is bound to the queue has the message, the one whose turn it is, and every
  -- other session is as before.
  pub record Serves (iov : List Bytes) (w : Broker N) (bi : Ptr) (round : ℕ)
      (o : Outcome (Broker N)) : Type ℓ where
    pub after : Broker N
    pub ends : o ≡ done after true
    pub sf : Ptr
    pub ss : SessionData
    pub there : w.sessions sf ≡ some ss
    pub bound : ss.bind ≡ bi
    pub d : ℕ
    pub within : d < (w.bindings bi).members_max
    pub passed : Passed (w.bindings bi).members_max (w.bindings bi).members round d
    pub chosen : ss.msgq ≡ place_of w bi round d
    pub held : List Bytes
    pub holds : Holds (w.queues ss.msgq) held
    pub got :
        Delivered send malloc bounded iov w.env after
          (record { sf = sf; queue = ss.msgq; held = held })
    pub others :
        (s : Ptr) (x : SessionData)
        → w.sessions s ≡ some x
        → s ≢ sf
        → (after.sessions s ≡ some x) × (after.queues x.msgq ≡ w.queues x.msgq)
    pub turns : (after.bindings bi).kind ≡ queue (turn (w.bindings bi).members_max round (suc d))

  module _ (iov : List Bytes) (w : Broker N) (t : Tied w) (bi : Ptr) (round : ℕ) where
    -- The queue of the session that is chosen
    record Choice : Type 0 where
      pub d : ℕ
      pub within : d < (w.bindings bi).members_max
      pub passed : Passed (w.bindings bi).members_max (w.bindings bi).members round d
      pub some_member : place_of w bi round d ≢ null
      pub owner : Owner w bi (place_of w bi round d)

    chosen-Owner :
        (sf : Ptr) (ss : SessionData)
        → w.sessions sf ≡ some ss
        → ss.bind ≡ bi
        → bi ≢ null
        → (w.bindings bi).kind ≡ queue round
        → Choice
    chosen-Owner sf ss is b some_bi k =
        let (own_queue, once) = t.bound sf ss is (λ z. some_bi (sym b ∙ z)) in
        let once' : times ss.msgq (w.bindings bi).members ≡ 1 =
          subst (λ k. times ss.msgq (w.bindings k).members ≡ 1) b once in
        let v : InTurn (queue round) (w.bindings bi).members_max =
          subst (λ j. InTurn j (w.bindings bi).members_max) k (t.valid bi).turn in
        let (d, within, passed, some_member, held) =
          Chosen-member (w.bindings bi) round ss.msgq _ (t.valid bi).places v own_queue
            (omega arith)
            (next_member-Chosen (w.bindings bi).members_max (w.bindings bi).members
              (w.bindings bi).members_max round) in
        record {
          d = d;
          within = within;
          passed = passed;
          some_member = some_member;
          owner = t.member bi (place_of w bi round d) some_member held;
        }

    Dispatched-Serves :
        (o : Outcome (Broker N)) (c : Choice) (p : Prepared send malloc bounded iov w c.owner.ss)
        → Dispatched send malloc bounded iov w
            (record { sf = c.owner.sf; queue = place_of w bi round c.d; held = p.held })
            bi
            round
            c.d
            o
        → Serves iov w bi round o
    Dispatched-Serves o c p v = record {
      after = v.after;
      ends = v.ends;
      sf = c.owner.sf;
      ss = c.owner.ss;
      there = c.owner.there;
      bound = c.owner.bound;
      d = c.d;
      within = c.within;
      passed = c.passed;
      chosen = c.owner.own;
      held = p.held;
      holds = p.holds;
      got =
          subst
            (λ k.
              Delivered send malloc bounded iov w.env v.after
                (record { sf = c.owner.sf; queue = k; held = p.held }))
            (sym c.owner.own) v.got;
      others = λ s x is other.
          let spared =
            v.others (record { sf = s; queue = x.msgq; held = [] }) (λ e. other (sym e))
              λ e. other (
                sym (
                  only_caller t c.owner.there is (λ z. c.some_member (sym c.owner.own ∙ z))
                    (sym e ∙ sym c.owner.own))) in
          (spared.1 ∙ is, spared.0);
      turns = v.turns;
    }

  -- In every state that the broker comes to from its start without a crash, while no binding is full
  -- when a message comes and `malloc` returns no memory that a session uses, let a SEND have a
  -- destination that is a queue in the table, and let a session be bound to this queue. Let each session
  -- that is bound to it send nothing at the moment, and have room for the message in the buffer that its
  -- message queue is writing. Then the handler succeeds and exactly one of these sessions gets the
  -- message, that of the first place with a member from the queue's turn on, in cyclic order: its socket
  -- is asked once, for the oldest message, and what is to be sent then is what its message queue held
  -- and the message behind, but for the bytes that the socket says to have taken. Every other session,
  -- and its message queue, is as before, and the turn moves to the place behind. None of the messages of
  -- the sessions is empty, and the socket takes no more than it is given.
  pub connected_send-Serves :
      (fuel : ℕ) (w : Broker N) (msg : Msg) (dest body : Bytes) (bi : Ptr) (round : ℕ) (sf : Ptr)
      (ss : SessionData)
      → Reach send malloc fuel w
      → destination msg ≡ ok dest
      → skip_command msg.buf ≡ some body
      → BindingHash.lookup (names w) fuel w.table dest ≡ some bi
      → bi ≢ null
      → (w.bindings bi).kind ≡ queue round
      → w.sessions sf ≡ some ss
      → ss.bind ≡ bi
      → ((s : Ptr) (x : SessionData)
          → w.sessions s ≡ some x
          → x.bind ≡ bi
          → Prepared send malloc bounded (passed_on send malloc bounded w msg body) w x)
      → Serves
          (passed_on send malloc bounded w msg body)
          w
          bi
          round
          (connected_send send malloc fuel w msg)
  connected_send-Serves fuel w msg dest body bi round sf ss r to starts found some_bi k is b ready =
      let t = Reach-Tied send malloc fuel r in
      let iov = passed_on send malloc bounded w msg body in
      let c = chosen-Owner iov w t bi round sf ss is b some_bi k in
      let p = ready c.owner.sf c.owner.ss c.owner.there c.owner.bound in
      Dispatched-Serves iov w t bi round _ c p (
        connected_send-Dispatched send malloc bounded fuel w msg dest body bi
          (record { sf = c.owner.sf; queue = place_of w bi round c.d; held = p.held }) round c.d to
          starts found some_bi k c.within c.passed refl
          (subscriber_of send malloc bounded iov w t bi (place_of w bi round c.d) c.owner p
            c.some_member))
