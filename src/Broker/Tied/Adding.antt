-- ===== src/Broker/Tied/Adding.antt =====
-- That a binding of stomp/stomp_subr.c with one more member leaves it tied.
use lmq.Prelude.{
  if-both, ℕ, ◌<◌, ◌≡◌, ◌≢◌, sym, subst, ◌∙◌, inl, inr, Bool, true, false, Option, none, some, List,
  ◌==◌, if◌then◌else◌, Bool-cases, arith, replicate, length-replicate, take,
}
use lmq.Pbuf.{Bytes}
use lmq.Dlist.{Ptr, null}
use lmq.Binding
use lmq.Binding.{
  Binding, Kind, topic, queue, first_members_max, name_max, subscribed, create_subscribed,
}
use lmq.Binding.Members.{times}
use lmq.Binding.Turns.{InTurn, InOrder}
use lmq.Binding.Growing.{Joins, joins, refuses, subscribe-Joins, count-null, times-null}
use lmq.Broker.{Broker, SessionData, with_session, with_binding}
use lmq.Broker.Subscribing.{bound, unbound}
use lmq.Stomp.Text.{codes, has_prefix}
use lmq.Broker.Subscribing.{kind_of}
use lmq.Broker.Tied.{Tied}
use lmq.Broker.Tied.Parting.{KeepsTied, same_of, unbound-Tied}
use lmq.Broker.Tied.Joining.{no_member, other_queue, joined-Tied}

-- The binding with this sink as its only member.
abbrev pub Lone : Ptr → Option Binding → Type 0
Lone sink none = Unit
Lone sink (some b) =
    InOrder b × ((a : Ptr) → a ≢ null → times a b.members ≡ (if sink == a then 1 else 0))

-- The turn of a new binding
abbrev pub FirstTurn : Option Kind → Type 0
FirstTurn none = Unit
FirstTurn (some k) = InTurn k first_members_max

pub kind_of-FirstTurn : (dest : Bytes) → FirstTurn (kind_of dest)
unfolding kind_of
kind_of-FirstTurn dest =
    let rest = if has_prefix (codes "/topic/") dest then some topic else none in
    if-both FirstTurn (has_prefix (codes "/queue/") dest) (some (queue 0)) rest (λ e lt. lt)
      λ e. if-both FirstTurn (has_prefix (codes "/topic/") dest) (some topic) none (λ h. tt) λ h. tt

module _ (sink : Ptr) (ne : sink ≢ null) where
  Joins-Lone :
      (old : Binding) (r : Binding × Bool)
      → ((a : Ptr) → a ≢ null → times a old.members ≡ 0)
      → Joins sink old r
      → Lone sink (subscribed r)
  Joins-Lone old _ empty (joins b v f) = (v, λ a na. omega (arith, f a na, empty a na))
  Joins-Lone old _ empty (refuses b v f) = tt

  pub create_subscribed-Lone :
      (allocated : Bool) (junk : Option (List Ptr)) (k : Kind) (name : Bytes)
      → InTurn k first_members_max
      → Lone sink (create_subscribed allocated junk k name sink)
  unfolding create_subscribed
  create_subscribed-Lone false junk k name turn = tt
  create_subscribed-Lone true junk k name turn =
      let b : Binding = record {
        kind = k;
        name = take name_max name;
        members_max = first_members_max;
        members_count = 0;
        members = replicate first_members_max null;
      } in
      let v : InOrder b = record {
        places = length-replicate {A = ℕ} first_members_max null;
        counted = count-null first_members_max;
        turn = turn;
      } in
      Joins-Lone b (Binding.subscribe junk b sink) (λ a na. times-null a first_members_max na)
        (subscribe-Joins sink ne junk b v (omega arith))

module _ {ℓ} {N : Type ℓ} where
  pub unbound-KeepsTied :
      (w : Broker N) (sf : Ptr) (ss : SessionData)
      → Tied w
      → w.sessions sf ≡ some ss
      → ss.bind ≡ null
      → KeepsTied (unbound w sf ss)
  unbound-KeepsTied w sf ss t is free =
      unbound-Tied w sf (some (record ss { msgq = null })) t
        (λ x there. ground (arith, is, there, free))
        λ x e. (ground (arith, e, free), λ ne. absurd (ground (arith, e)))

  -- A binding gets room for more members.
  renewed-Tied :
      (w : Broker N) (bi : Ptr) (b : Binding)
      → Tied w
      → InOrder b
      → ((a : Ptr) → a ≢ null → times a b.members ≡ times a (w.bindings bi).members)
      → Tied (with_binding w bi b)
  renewed-Tied w bi b t valid same = record {
    valid = λ c. elim (Bool-cases (bi == c)) [ inl e ↦ rw e valid | inr e ↦ rw e (t.valid c) ];
    member = λ c q ne lt.
        let before : 0 < times q (w.bindings c).members = elim (Bool-cases (bi == c)) [
          | inl e ↦
              let lt' : 0 < times q b.members = rw e at lt in
              rw (sym (same_of bi c e)) (omega (arith, same q ne))
          | inr e ↦ rw e at lt
        ] in
        let own = t.member c q ne before in
        record {
          sf = own.sf;
          ss = own.ss;
          there = own.there;
          own = own.own;
          bound = own.bound;
          some_binding = own.some_binding;
        };
    calls = t.calls;
    bound = λ s x there ne.
        let (own_queue, once) = t.bound s x there ne in
        (
          own_queue,
          elim (Bool-cases (bi == x.bind)) [
            | inl e ↦
                let once' : times x.msgq (w.bindings bi).members ≡ 1 =
                  subst (λ k. times x.msgq (w.bindings k).members ≡ 1) (sym (same_of bi x.bind e))
                    once in
                rw e (same x.msgq own_queue ∙ once')
            | inr e ↦ rw e once
          ],
        );
  }

  module _ (w : Broker N) (sf : Ptr) (ss : SessionData) (t : Tied w) (is : w.sessions sf ≡ some ss)
      (free : ss.bind ≡ null) (mq : Ptr) (some_queue : mq ≢ null)
      (calls_it : (w.queues mq).callback ≡ some sf) where
    pub added-Tied :
        (bi : Ptr) (r : Binding × Bool)
        → bi ≢ null
        → Joins mq (w.bindings bi) r
        → (let w' = with_binding w bi r.0 in
            KeepsTied (if r.1 then bound w' sf ss bi mq else unbound w' sf ss))
    added-Tied bi _ some_bi (joins b v f) =
        let none_yet = no_member w sf ss t is free bi mq some_queue calls_it bi in
        joined-Tied w sf ss t is free bi mq some_queue calls_it some_bi b v
          (λ a na nm lt. ground (arith, f a na, lt)) (ground (arith, f mq some_queue, none_yet))
          λ s x there other ne k.
            let apart =
              other_queue w sf ss t is free bi mq some_queue calls_it s x there other ne in
            let before : times x.msgq (w.bindings bi).members ≡ 1 =
              subst (λ c. times x.msgq (w.bindings c).members ≡ 1) k
                (t.bound s x there (λ z. some_bi (sym k ∙ z))).1 in
            ground (arith, f x.msgq ne, before, apart)
    added-Tied bi _ some_bi (refuses b v f) =
        unbound-KeepsTied (with_binding w bi b) sf ss (renewed-Tied w bi b t v f) is free

    -- A new binding, for which `malloc` has returned memory.
    pub new-Tied :
        (bi : Ptr) (b : Binding)
        → bi ≢ null
        → ((s : Ptr) (x : SessionData) → w.sessions s ≡ some x → x.bind ≢ bi)
        → Lone mq (some b)
        → Tied (with_session (with_binding w bi b) sf (some (record ss { bind = bi; msgq = mq })))
    new-Tied bi b some_bi fresh (v, f) =
        joined-Tied w sf ss t is free bi mq some_queue calls_it some_bi b v
          (λ a na nm lt. absurd (ground (arith, f a na, lt))) (ground (arith, f mq some_queue))
          λ s x there other ne k. absurd (fresh s x there k)
