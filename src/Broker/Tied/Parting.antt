-- ===== src/Broker/Tied/Parting.antt =====
-- That a session that leaves its binding, or ends, leaves stomp/stomp_subr.c tied.
use lmq.Prelude.{
  ℕ, ◌<◌, ◌≡◌, ◌≢◌, sym, subst, ◌∙◌, inl, inr, true, false, Option, some, List, ◌==◌, Bool-cases,
  arith,
}
use lmq.Dlist.{Ptr, null}
use lmq.Binding.Members.{times}
use lmq.Binding.Delivery.{Leaves}
use lmq.Broker.{Broker, SessionData, Outcome, done, crash, stuck, with_session, with_binding}
use lmq.Broker.Tied.{Tied}

pub apart_of : (a b : Ptr) → a ≢ b → (a == b) ≡ false
apart_of a b ne = ground arith

pub same_of : (a b : Ptr) → (a == b) ≡ true → a ≡ b
same_of a b e = ground arith

module _ {ℓ} {N : Type ℓ} where
  -- What a call leaves when it ends in a state.
  abbrev pub KeepsTied : Outcome (Broker N) → Type 0
  KeepsTied (done w r) = Tied w
  KeepsTied crash = Unit
  KeepsTied stuck = Unit

  pub only_caller :
      {w : Broker N} {sf s : Ptr} {ss x : SessionData}
      → Tied w
      → w.sessions sf ≡ some ss
      → w.sessions s ≡ some x
      → ss.msgq ≢ null
      → x.msgq ≡ ss.msgq
      → sf ≡ s
  only_caller {w} {sf} {s} {ss} {x} t is there ne same =
      ground (arith, t.calls sf ss is ne, t.calls s x there (ground arith), same)

  -- A session without a binding changes, and still has none.
  pub unbound-Tied :
      (w : Broker N) (sf : Ptr) (o : Option SessionData)
      → Tied w
      → ((ss : SessionData) → w.sessions sf ≡ some ss → ss.bind ≡ null)
      → ((x : SessionData)
          → o ≡ some x
          → (x.bind ≡ null) × (x.msgq ≢ null → (w.queues x.msgq).callback ≡ some sf))
      → Tied (with_session w sf o)
  unbound-Tied w sf o t free new = record {
    valid = t.valid;
    member = λ b q ne lt.
        let own = t.member b q ne lt in
        let apart : (sf == own.sf) ≡ false =
          apart_of sf own.sf λ e. own.some_binding (sym own.bound ∙ free own.ss (rw e own.there)) in
        record {
          sf = own.sf;
          ss = own.ss;
          there = rw apart own.there;
          own = own.own;
          bound = own.bound;
          some_binding = own.some_binding;
        };
    calls = λ s x is ne. elim (Bool-cases (sf == s)) [
      | inl e ↦ rw (sym (same_of sf s e)) ((new x (rw e at is)).1 ne)
      | inr e ↦ t.calls s x (rw e at is) ne
    ];
    bound = λ s x is ne. elim (Bool-cases (sf == s)) [
      | inl e ↦ absurd (ne (new x (rw e at is)).0)
      | inr e ↦ t.bound s x (rw e at is) ne
    ];
  }

  module _ (w : Broker N) (sf : Ptr) (ss : SessionData) (ms : List Ptr) (c : ℕ) (t : Tied w)
      (is : w.sessions sf ≡ some ss) (some_bind : ss.bind ≢ null)
      (gone : Leaves ss.msgq
        (w.bindings ss.bind).members
        (w.bindings ss.bind).members_count
        ms
        c) where
    abbrev less : Broker N
    less = with_binding w ss.bind (record (w.bindings ss.bind) { members = ms; members_count = c })

    -- A member that is left was one before, and is not the session's.
    left_member :
        (b q : Ptr)
        → q ≢ null
        → 0 < times q (less.bindings b).members
        → (0 < times q (w.bindings b).members) × (b ≡ ss.bind → q ≢ ss.msgq)
    left_member b q ne lt = elim (Bool-cases (ss.bind == b)) [
      | inl e ↦
          let lt' : 0 < times q ms = rw e at lt in
          let other : q ≢ ss.msgq =
            λ k. let none_left : times q ms ≡ 0 = rw k gone.gone in omega arith in
          (rw (sym (same_of ss.bind b e)) (omega (arith, gone.others q ne other)), λ k. other)
      | inr e ↦ (rw e at lt, λ k. absurd (ground arith))
    ]

    left_bound :
        (s : Ptr) (x : SessionData)
        → w.sessions s ≡ some x
        → sf ≢ s
        → x.bind ≢ null
        → (x.msgq ≢ null) × (times x.msgq (less.bindings x.bind).members ≡ 1)
    left_bound s x there other ne =
        let (some_queue, once) = t.bound s x there ne in
        let (own_queue, _) = t.bound sf ss is some_bind in
        let apart : x.msgq ≢ ss.msgq = λ k. other (only_caller t is there own_queue k) in
        (
          some_queue,
          elim (Bool-cases (ss.bind == x.bind)) [
            | inl e ↦
                let once' : times x.msgq (w.bindings ss.bind).members ≡ 1 =
                  subst (λ k. times x.msgq (w.bindings k).members ≡ 1)
                    (sym (same_of ss.bind x.bind e)) once in
                rw e (gone.others x.msgq some_queue apart ∙ once')
            | inr e ↦ rw e once
          ],
        )

    -- A session leaves its binding, of which an unsubscription left these members.
    pub left-Tied :
        (o : Option SessionData)
        → ((x : SessionData) → o ≡ some x → (x.bind ≡ null) × (x.msgq ≡ ss.msgq))
        → Tied (with_session less sf o)
    left-Tied o new = record {
      valid = λ b. elim (Bool-cases (ss.bind == b)) [
        | inl e ↦ rw e (record {
          places = gone.same_length ∙ (t.valid ss.bind).places;
          counted = omega (arith, gone.members, gone.counted, (t.valid ss.bind).counted);
          turn = (t.valid ss.bind).turn;
        })
        | inr e ↦ rw e (t.valid b)
      ];
      member = λ b q ne lt.
          let (before, other) = left_member b q ne lt in
          let own = t.member b q ne before in
          let apart : (sf == own.sf) ≡ false = apart_of sf own.sf λ e.
            let same : w.sessions own.sf ≡ some ss = subst (λ k. w.sessions k ≡ some ss) e is in
            other (ground (arith, same, own.there, own.bound))
              (ground (arith, same, own.there, own.own)) in
          record {
            sf = own.sf;
            ss = own.ss;
            there = rw apart own.there;
            own = own.own;
            bound = own.bound;
            some_binding = own.some_binding;
          };
      calls = λ s x there ne. elim (Bool-cases (sf == s)) [
        | inl e ↦
            let q : x.msgq ≡ ss.msgq = (new x (rw e at there)).1 in
            subst (λ k. (w.queues k).callback ≡ some s) (sym q)
              (rw (sym (same_of sf s e)) (t.calls sf ss is (λ z. ne (q ∙ z))))
        | inr e ↦ t.calls s x (rw e at there) ne
      ];
      bound = λ s x there ne. elim (Bool-cases (sf == s)) [
        | inl e ↦ absurd (ne (new x (rw e at there)).0)
        | inr e ↦ left_bound s x (rw e at there) (ground arith) ne
      ];
    }
