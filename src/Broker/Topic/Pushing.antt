-- ===== src/Broker/Topic/Pushing.antt =====
-- That a push to the members of a topic reaches all subscribers of stomp/stomp_subr.c.
use lmq.Prelude.{
  arith, none, ℕ, ◌+◌, ◌<◌, ◌≡◌, ◌≢◌, refl, sym, ap, subst, ◌∙◌, inl, true, Option, some, List, [],
  ◌∷◌, ◌++◌, ◌==◌, length, drop, drop-append_exact, Bool-cases, inr,
}
use lmq.Pbuf.{Bytes}
use lmq.Dlist.{Ptr, null}
use lmq.MsgQueue.{iov_bytes}
use lmq.MsgQueue.Rep.{Holds}
use lmq.Binding.{push_all}
use lmq.Binding.Delivery.{members_of}
use lmq.Broker.{Broker, Outcome, with_queue, send_resume}
use lmq.Broker.Subscribing.{notified, deliver}
use lmq.Broker.Resume.{TakesBounded, Resumes, refused, partly, wholly, send_resume-Resumes}
use lmq.Broker.Draining.{AllFull, idle, sending}
use lmq.Broker.Delivering.{deliver-accepts}
use lmq.Broker.Frame.{Near, Framed, with_queue-Near, send_resume-Framed}
use lmq.Broker.Topic.{
  oldest, asked, count_of, Subscriber, queues_of, Apart, Disjoint, Ready, Delivered, AllReady,
  AllDelivered, Spared, Near-Spared, AllReady-Spared, Delivered-Spared,
}

module _ {ℓ} {N : Type ℓ} (send : Ptr → Bytes → N → N × Option ℕ) (malloc : N → ℕ → Option Bytes)
    (bounded : TakesBounded send) (iov : List Bytes) where
  AllFull-append :
      (xs : List Bytes)
      → AllFull xs
      → 0 < length (iov_bytes iov)
      → AllFull (xs ++ iov_bytes iov ∷ [])
  AllFull-append [] v lt = (lt, tt)
  AllFull-append (x ∷ xs) v lt = (v.0, AllFull-append xs v.1 lt)

  split_oldest :
      (xs : List Bytes)
      → (rest : List Bytes) × (xs ++ iov_bytes iov ∷ [] ≡ oldest send malloc bounded iov xs ∷ rest)
  split_oldest [] = ([], refl)
  split_oldest (x ∷ xs) = (xs ++ iov_bytes iov ∷ [], refl)

  -- What the socket was found to have taken
  took :
      (env : N) (s : Subscriber) (o : Option ℕ) (left : Bytes)
      → (asked send malloc bounded iov env s).1 ≡ o
      → left ≡ drop (count_of send malloc bounded iov o) (iov_bytes (s.held ++ iov_bytes iov ∷ []))
      → left
        ≡ drop
            (count_of send malloc bounded iov (asked send malloc bounded iov env s).1)
            (iov_bytes (s.held ++ iov_bytes iov ∷ []))
  took env s o left e is =
      is
      ∙ ap
          (λ a.
            drop (count_of send malloc bounded iov a) (iov_bytes (s.held ++ iov_bytes iov ∷ [])))
          (sym e)

  Resumes-Delivered :
      (w : Broker N) (s : Subscriber) (rest : List Bytes) (o : Outcome (Broker N))
      → s.queue ≢ null
      → s.held ++ iov_bytes iov ∷ [] ≡ oldest send malloc bounded iov s.held ∷ rest
      → AllFull (oldest send malloc bounded iov s.held ∷ rest)
      → Resumes send s.queue s.sf w.env (oldest send malloc bounded iov s.held) 0 rest o
      → Framed send s.queue s.sf w o
      → (w' : Broker N) × (notified send malloc o ≡ (some w', true))
        × Delivered send malloc bounded iov w.env w' s
        × Near send s.queue s.sf w w'
        × (w'.env ≡ (asked send malloc bounded iov w.env s).0)
  Resumes-Delivered w s rest o nq split full (refused {w = w'} ss e moves is own v h) near = (
    w',
    refl,
    record {
      left = oldest send malloc bounded iov s.held ∷ rest;
      k = 0;
      works = record {
        ss = ss;
        session = is;
        own = own;
        some_queue = nq;
        holds = h;
        full = full;
        progress = sending 0 v;
      };
      order = took w.env s none _ e (ap iov_bytes (sym split));
    },
    near,
    moves,
  )
  Resumes-Delivered w s rest o nq split full (partly {w = w'} ss n e moves is own v h) near = (
    w',
    refl,
    record {
      left = oldest send malloc bounded iov s.held ∷ rest;
      k = 0 + n;
      works = record {
        ss = ss;
        session = is;
        own = own;
        some_queue = nq;
        holds = h;
        full = full;
        progress = sending (0 + n) v;
      };
      order = took w.env s (some n) _ e (
          ap (λ j. drop j (iov_bytes (oldest send malloc bounded iov s.held ∷ rest))) (omega arith)
          ∙ ap (λ ys. drop n (iov_bytes ys)) (sym split));
    },
    near,
    moves,
  )
  Resumes-Delivered w s rest o nq split full (wholly {w = w'} ss n e moves all is own end h) near =
      (
        w',
        refl,
        record {
          left = rest;
          k = 0;
          works = record {
            ss = ss;
            session = is;
            own = own;
            some_queue = nq;
            holds = h;
            full = full.1;
            progress = idle end;
          };
          order = took w.env s (some n) _ e (
              sym (
                drop-append_exact n (oldest send malloc bounded iov s.held) (iov_bytes rest)
                  (omega arith))
              ∙ ap (λ ys. drop n (iov_bytes ys)) (sym split));
        },
        near,
        moves,
      )

  pub deliver-Delivered :
      (w : Broker N) (s : Subscriber)
      → 0 < length (iov_bytes iov)
      → Ready send malloc bounded iov w s
      → (w' : Broker N) × (deliver send malloc iov s.queue (some w) ≡ (some w', true))
        × Delivered send malloc bounded iov w.env w' s
        × Near send s.queue s.sf w w'
        × (w'.env ≡ (asked send malloc bounded iov w.env s).0)
  deliver-Delivered w s lt v =
      let (q', calls, held) =
        deliver-accepts send malloc iov s.queue s.sf w s.held v.callback v.holds v.room in
      let x = oldest send malloc bounded iov s.held in
      let (rest, split) = split_oldest s.held in
      let full : AllFull (x ∷ rest) = subst AllFull split (AllFull-append s.held v.full lt) in
      let w1 = with_queue w s.queue q' in
      let near : Near send s.queue s.sf w w1 =
        with_queue-Near send s.queue s.sf w w s.queue q' refl
          (record { queues = λ q ne. refl; sessions = λ t ne. refl; bindings = refl }) in
      let resumes =
        send_resume-Resumes send bounded w1 s.sf v.ss x 0 rest v.session
          (λ e. v.some_queue (sym v.own ∙ e)) (inl (v.quiet, refl))
          (subst (λ p. Holds (w1.queues p) (x ∷ rest)) (sym v.own)
            (subst (λ ys. Holds (w1.queues s.queue) ys) split held))
          full.0 in
      let resumes = resumes.0 in
      let framed = send_resume-Framed send s.queue s.sf w w1 v.ss v.session v.own near in
      let (w', ends, got, after, moves) =
        Resumes-Delivered w s rest (send_resume send w1 s.sf) v.some_queue split full
          (subst (λ p. Resumes send p s.sf w.env x 0 rest (send_resume send w1 s.sf)) v.own resumes)
          framed in
      (w', calls ∙ ends, got, after, moves)

  -- What a push to the members leaves: the subscribers have the message, and those apart from them
  -- are as before.
  pub record Pushed (w : Broker N) (subs : List Subscriber) (errors : ℕ) (r : Option (Broker N) × ℕ)
      : Type ℓ where
    pub after : Broker N
    pub ends : r ≡ (some after, errors)
    pub all : AllDelivered send malloc bounded iov w.env after subs
    pub others : (s : Subscriber) → Apart s subs → Spared send malloc bounded iov w after s

  -- The first member has the message, if the others get it.
  first-Pushed :
      (w w' : Broker N) (s : Subscriber) (r : List Subscriber) (errors : ℕ)
      (o : Option (Broker N) × ℕ)
      → Apart s r
      → Delivered send malloc bounded iov w.env w' s
      → Near send s.queue s.sf w w'
      → w'.env ≡ (asked send malloc bounded iov w.env s).0
      → Pushed w' r errors o
      → Pushed w (s ∷ r) errors o
  first-Pushed w w' s r errors o a got near moves rest = record {
    after = rest.after;
    ends = rest.ends;
    all = (
      Delivered-Spared send malloc bounded iov w.env w' rest.after s (rest.others s a) got,
      subst (λ e. AllDelivered send malloc bounded iov e rest.after r) moves rest.all,
    );
    others = λ t b.
        let first =
          Near-Spared send malloc bounded iov w w' s t ((λ e. b.0.0 (sym e)), (λ e. b.0.1 (sym e)))
            near in
        let later = rest.others t b.1 in (later.0 ∙ first.0, later.1 ∙ first.1);
  }

  pub push_all-Pushed :
      (ms : List Ptr) (subs : List Subscriber) (errors : ℕ) (w : Broker N)
      → 0 < length (iov_bytes iov)
      → members_of ms ≡ queues_of subs
      → Disjoint subs
      → AllReady send malloc bounded iov w subs
      → Pushed w subs errors (push_all (deliver send malloc iov) ms errors (some w))
  unfolding push_all members_of
  push_all-Pushed [] [] errors w lt same d v = record {
    after = w;
    ends = refl;
    all = tt;
    others = λ s a. (refl, refl);
  }
  push_all-Pushed [] (s ∷ r) errors w lt same d v = absurd (cc)
  push_all-Pushed (p ∷ ps) [] errors w lt same d v = elim (Bool-cases (p == null)) [
    | inl t ↦
        let rest : members_of ps ≡ [] = rw t at same in
        rw t (push_all-Pushed ps [] errors w lt rest d v)
    | inr t ↦ let rest : p ∷ members_of ps ≡ [] = rw t at same in absurd (cc)
  ]
  push_all-Pushed (p ∷ ps) (s ∷ r) errors w lt same d v = elim (Bool-cases (p == null)) [
    | inl t ↦
        let rest : members_of ps ≡ queues_of (s ∷ r) = rw t at same in
        rw t (push_all-Pushed ps (s ∷ r) errors w lt rest d v)
    | inr t ↦
        let both : p ∷ members_of ps ≡ s.queue ∷ queues_of r = rw t at same in
        let here : p ≡ s.queue = cc in
        let rest : members_of ps ≡ queues_of r = cc in
        let (w', ends, got, near, moves) = deliver-Delivered w s lt v.0 in
        let delivered = ap (λ q. deliver send malloc iov q (some w)) here ∙ ends in
        rw t (
          rw delivered (
            first-Pushed w w' s r errors _ d.0 got near moves (
              push_all-Pushed ps r errors w' lt rest d.1
                (AllReady-Spared send malloc bounded iov w w' s r d.0 near v.1))))
  ]
