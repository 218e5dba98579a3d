-- ===== src/Broker/Tied/Joining.antt =====
-- That a session that joins a binding leaves stomp/stomp_subr.c tied.
use lmq.Prelude.{
  ◌<◌, ◌≡◌, ◌≢◌, refl, sym, subst, ◌∙◌, inl, inr, true, some, ◌==◌, Bool-cases, arith,
}
use lmq.Dlist.{Ptr, null}
use lmq.Binding.{Binding}
use lmq.Binding.Members.{times}
use lmq.Binding.Turns.{InOrder}
use lmq.Broker.{Broker, SessionData, with_session, with_binding}
use lmq.Broker.Tied.{Owner, Tied}
use lmq.Broker.Tied.Parting.{apart_of, same_of}

module _ {ℓ} {N : Type ℓ} (w : Broker N) (sf : Ptr) (ss : SessionData) (t : Tied w)
    (is : w.sessions sf ≡ some ss) (free : ss.bind ≡ null) where
  -- A session without a binding owns no member.
  pub not-Owner : {b q : Ptr} (own : Owner w b q) → sf ≢ own.sf
  not-Owner own e =
      let same : w.sessions own.sf ≡ some ss = subst (λ k. w.sessions k ≡ some ss) e is in
      own.some_binding (ground (arith, same, own.there, own.bound, free))

  module _ (bi mq : Ptr) (some_queue : mq ≢ null)
      (calls_it : (w.queues mq).callback ≡ some sf) where
    -- Its queue is no member yet.
    pub no_member : (b : Ptr) → times mq (w.bindings b).members ≡ 0
    no_member b = elim (Bool-cases (times mq (w.bindings b).members == 0)) [
      | inl e ↦ ground arith
      | inr e ↦
          let own = t.member b mq some_queue (ground arith) in
          let calls : (w.queues mq).callback ≡ some own.sf =
            subst (λ k. (w.queues k).callback ≡ some own.sf) own.own
              (t.calls own.sf own.ss own.there (λ k. some_queue (sym own.own ∙ k))) in
          absurd (not-Owner own (ground (arith, calls, calls_it)))
    ]

    -- No other session has this queue.
    pub other_queue :
        (s : Ptr) (x : SessionData) → w.sessions s ≡ some x → sf ≢ s → x.msgq ≢ null → x.msgq ≢ mq
    other_queue s x there other ne k =
        let calls : (w.queues mq).callback ≡ some s =
          subst (λ q. (w.queues q).callback ≡ some s) k (t.calls s x there ne) in
        other (ground (arith, calls, calls_it))

    module _ (some_bi : bi ≢ null) (b : Binding) (valid : InOrder b)
        (held : (a : Ptr)
          → a ≢ null
          → a ≢ mq
          → 0 < times a b.members
          → 0 < times a (w.bindings bi).members)
        (once : times mq b.members ≡ 1)
        (kept : (s : Ptr) (x : SessionData)
          → w.sessions s ≡ some x
          → sf ≢ s
          → x.msgq ≢ null
          → x.bind ≡ bi
          → times x.msgq b.members ≡ 1) where
      abbrev joining : SessionData
      joining = record ss { bind = bi; msgq = mq }

      abbrev more : Broker N
      more = with_session (with_binding w bi b) sf (some joining)

      old-Owner : (c q : Ptr) → Owner w c q → Owner more c q
      old-Owner c q own =
          let apart = apart_of sf own.sf (not-Owner own) in
          record {
            sf = own.sf;
            ss = own.ss;
            there = rw apart own.there;
            own = own.own;
            bound = own.bound;
            some_binding = own.some_binding;
          }

      now-Owner : Owner more bi mq
      now-Owner =
          let e : (sf == sf) ≡ true = ground arith in
          record {
            sf = sf;
            ss = joining;
            there = rw e refl;
            own = refl;
            bound = refl;
            some_binding = some_bi;
          }

      joined_member :
          (c q : Ptr) → q ≢ null → 0 < times q (more.bindings c).members → Owner more c q
      joined_member c q ne lt = elim (Bool-cases (bi == c)) [
        | inl e ↦
            let lt' : 0 < times q b.members = rw e at lt in
            elim (Bool-cases (q == mq)) [
              | inl k ↦
                  subst (λ d. Owner more d q) (same_of bi c e)
                    (subst (λ r. Owner more bi r) (sym (same_of q mq k)) now-Owner)
              | inr k ↦
                  subst (λ d. Owner more d q) (same_of bi c e)
                    (old-Owner bi q (t.member bi q ne (held q ne (ground arith) lt')))
            ]
        | inr e ↦ old-Owner c q (t.member c q ne (rw e at lt))
      ]

      joined_bound :
          (s : Ptr) (x : SessionData)
          → w.sessions s ≡ some x
          → sf ≢ s
          → x.bind ≢ null
          → (x.msgq ≢ null) × (times x.msgq (more.bindings x.bind).members ≡ 1)
      joined_bound s x there other ne =
          let (own_queue, before) = t.bound s x there ne in
          (
            own_queue,
            elim (Bool-cases (bi == x.bind)) [
              | inl e ↦ rw e (kept s x there other own_queue (sym (same_of bi x.bind e)))
              | inr e ↦ rw e before
            ],
          )

      new_data : (x : SessionData) → some joining ≡ some x → joining ≡ x
      new_data x e = cc

      pub joined-Tied : Tied more
      joined-Tied = record {
        valid = λ c. elim (Bool-cases (bi == c)) [ inl e ↦ rw e valid | inr e ↦ rw e (t.valid c) ];
        member = joined_member;
        calls = λ s x there ne. elim (Bool-cases (sf == s)) [
          | inl e ↦
              subst (λ (d : SessionData). (w.queues d.msgq).callback ≡ some s)
                (new_data x (rw e at there)) (rw (sym (same_of sf s e)) calls_it)
          | inr e ↦ t.calls s x (rw e at there) ne
        ];
        bound = λ s x there ne. elim (Bool-cases (sf == s)) [
          | inl e ↦
              let here : (bi == bi) ≡ true = ground arith in
              subst
                (λ (d : SessionData).
                  (d.msgq ≢ null) × (times d.msgq (more.bindings d.bind).members ≡ 1))
                (new_data x (rw e at there)) (some_queue, rw here once)
          | inr e ↦ joined_bound s x (rw e at there) (ground arith) ne
        ];
      }
