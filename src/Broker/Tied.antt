-- ===== src/Broker/Tied.antt =====
-- How the sessions, the queues and the bindings of stomp/stomp_subr.c belong together.
pub mod Sending
pub mod Passing
pub mod Parting
pub mod Leaving
pub mod Adding
pub mod Making
pub mod Subscribing
pub mod Handling
pub mod Reach
pub mod Gathering
pub mod Publishing
pub mod Dispatching
pub mod Ending
mod Tests
mod Sends
pub mod Joining
use lmq.Prelude.{
  ℕ, ◌<◌, ◌≡◌, ◌≢◌, refl, sym, ap, subst, ◌∙◌, inl, inr, Bool, true, false, Option, none, some,
  List, ◌==◌, Bool-cases, Option-cases, arith,
}
use lmq.Dlist.{Ptr, null}
use lmq.MsgQueue.{MsgQueue}
use lmq.Binding.{Binding}
use lmq.Binding.Members.{times}
use lmq.Binding.Turns.{InTurn, InOrder}
use lmq.Broker.{Broker, SessionData, Outcome, done, crash, stuck, with_session, with_queue}

-- Both are data of a session with the same queue and the same binding, or neither is.
abbrev pub Like : Option SessionData → Option SessionData → Type 0
Like none none = Unit
Like none (some b) = ⊥
Like (some a) none = ⊥
Like (some a) (some b) = (a.msgq ≡ b.msgq) × (a.bind ≡ b.bind)

pub Like-refl : (o : Option SessionData) → Like o o
Like-refl none = tt
Like-refl (some a) = (refl, refl)

pub Like-trans : (a b c : Option SessionData) → Like a b → Like b c → Like a c
Like-trans none none c u v = v
Like-trans (some a) (some b) (some c) u v = (u.0 ∙ v.0, u.1 ∙ v.1)
Like-trans none (some b) c u v = absurd u
Like-trans (some a) none c u v = absurd u
Like-trans (some a) (some b) none u v = v

-- The data of a session that is like another one.
forth :
    (a b : Option SessionData) (x : SessionData)
    → Like a b
    → a ≡ some x
    → (y : SessionData) × (b ≡ some y) × (x.msgq ≡ y.msgq) × (x.bind ≡ y.bind)
forth none b x l e = absurd (cc)
forth (some a) none x l e = absurd l
forth (some a) (some b) x l e = (b, refl, ground arith, ground arith)

back :
    (a b : Option SessionData) (y : SessionData)
    → Like a b
    → b ≡ some y
    → (x : SessionData) × (a ≡ some x) × (x.msgq ≡ y.msgq) × (x.bind ≡ y.bind)
back a none y l e = absurd (cc)
back none (some b) y l e = absurd l
back (some a) (some b) y l e = (a, refl, ground arith, ground arith)

module _ {ℓ} {N : Type ℓ} where
  -- A session that is bound to a binding with a queue.
  pub record Owner (w : Broker N) (b q : Ptr) : Type 0 where
    pub sf : Ptr
    pub ss : SessionData
    pub there : w.sessions sf ≡ some ss
    pub own : ss.msgq ≡ q
    pub bound : ss.bind ≡ b
    pub some_binding : b ≢ null

  -- The members of the bindings are the queues of the sessions that are bound to them, each once, and
  -- a queue calls back the session that it belongs to. Each binding is in order.
  pub record Tied (w : Broker N) : Type 0 where
    pub valid : (b : Ptr) → InOrder (w.bindings b)
    pub member : (b q : Ptr) → q ≢ null → 0 < times q (w.bindings b).members → Owner w b q
    pub calls :
        (sf : Ptr) (ss : SessionData)
        → w.sessions sf ≡ some ss
        → ss.msgq ≢ null
        → (w.queues ss.msgq).callback ≡ some sf
    pub bound :
        (sf : Ptr) (ss : SessionData)
        → w.sessions sf ≡ some ss
        → ss.bind ≢ null
        → (ss.msgq ≢ null) × (times ss.msgq (w.bindings ss.bind).members ≡ 1)

  pub record Same (w w' : Broker N) : Type 0 where
    pub sessions : (s : Ptr) → Like (w.sessions s) (w'.sessions s)
    pub queues : (p : Ptr) → (w'.queues p).callback ≡ (w.queues p).callback
    pub members : (b : Ptr) → (w'.bindings b).members ≡ (w.bindings b).members
    pub limits : (b : Ptr) → (w'.bindings b).members_max ≡ (w.bindings b).members_max
    pub counts : (b : Ptr) → (w'.bindings b).members_count ≡ (w.bindings b).members_count
    pub turns :
        (b : Ptr)
        → InTurn (w.bindings b).kind (w.bindings b).members_max
        → InTurn (w'.bindings b).kind (w'.bindings b).members_max

  pub Same-refl : (w : Broker N) → Same w w
  Same-refl w = record {
    sessions = λ s. Like-refl (w.sessions s);
    queues = λ p. refl;
    members = λ b. refl;
    limits = λ b. refl;
    counts = λ b. refl;
    turns = λ b t. t;
  }

  pub Same-trans : {a b c : Broker N} → Same a b → Same b c → Same a c
  Same-trans {a} {b} {c} u v = record {
    sessions =
        λ s. Like-trans (a.sessions s) (b.sessions s) (c.sessions s) (u.sessions s) (v.sessions s);
    queues = λ p. v.queues p ∙ u.queues p;
    members = λ p. v.members p ∙ u.members p;
    limits = λ p. v.limits p ∙ u.limits p;
    counts = λ p. v.counts p ∙ u.counts p;
    turns = λ p t. v.turns p (u.turns p t);
  }

  pub Same-Tied : {w w' : Broker N} → Same w w' → Tied w → Tied w'
  Same-Tied {w} {w'} v t = record {
    valid = λ b. record {
      places = rw (v.members b) (rw (v.limits b) (t.valid b).places);
      counted = rw (v.members b) (rw (v.counts b) (t.valid b).counted);
      turn = v.turns b (t.valid b).turn;
    };
    member = λ b q ne lt.
        let o = t.member b q ne (rw (v.members b) at lt) in
        let (y, is, mq, bi) =
          forth (w.sessions o.sf) (w'.sessions o.sf) o.ss (v.sessions o.sf) o.there in
        record {
          sf = o.sf;
          ss = y;
          there = is;
          own = sym mq ∙ o.own;
          bound = sym bi ∙ o.bound;
          some_binding = o.some_binding;
        };
    calls = λ sf ss is ne.
        let (x, was, mq, bi) = back (w.sessions sf) (w'.sessions sf) ss (v.sessions sf) is in
        v.queues ss.msgq ∙ rw (sym mq) (t.calls sf x was (ground (arith, mq)));
    bound = λ sf ss is ne.
        let (x, was, mq, bi) = back (w.sessions sf) (w'.sessions sf) ss (v.sessions sf) is in
        let (some_queue, once) = t.bound sf x was (ground (arith, bi)) in
        (ground (arith, some_queue, mq), rw (v.members ss.bind) (rw (sym mq) (rw (sym bi) once)));
  }

  -- What a call leaves when it ends in a state.
  abbrev pub After : Broker N → Outcome (Broker N) → Type 0
  After w (done w' r) = Same w w'
  After w crash = Unit
  After w stuck = Unit
