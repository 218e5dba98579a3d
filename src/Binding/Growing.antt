-- ===== src/Binding/Growing.antt =====
-- A subscription of binding.c on every branch where the members are not extended.
use lmq.Prelude.{
  ℕ, zero, suc, ◌+◌, ◌≡◌, ◌≢◌, refl, Bool, true, false, Option, none, some, List, ◌==◌,
  if◌then◌else◌, arith, replicate,
}
use lmq.Dlist.{Ptr, null}
use lmq.Binding.{Binding, filled, place, subscribe}
use lmq.Binding.Turns.{InOrder}
use lmq.Binding.Members.{count, times, Filled, fill-Filled}

-- The sink is one member more, or none joins; either way the binding is in order.
pub data Joins (sink : Ptr) (old : Binding) : Binding × Bool → Type 0 where
  joins :
      (b : Binding)
      → InOrder b
      → ((a : Ptr)
          → a ≢ null
          → times a b.members ≡ times a old.members + (if sink == a then 1 else 0))
      → Joins sink old (b, true)
  refuses :
      (b : Binding)
      → InOrder b
      → ((a : Ptr) → a ≢ null → times a b.members ≡ times a old.members)
      → Joins sink old (b, false)

pub count-null : (m : ℕ) → count (replicate m null) ≡ 0
unfolding count
count-null zero = refl
count-null (suc m) = ground (arith, count-null m)

pub times-null : (a : Ptr) (m : ℕ) → a ≢ null → times a (replicate m null) ≡ 0
unfolding times
times-null a zero ne = refl
times-null a (suc m) ne = ground (arith, times-null a m)

module _ (sink : Ptr) (ne : sink ≢ null) where
  filled-Joins :
      (old b : Binding) (o : Option (List Ptr))
      → InOrder b
      → ((a : Ptr) → a ≢ null → times a b.members ≡ times a old.members)
      → Filled sink b.members o
      → Joins sink old (filled b o)
  filled-Joins old b none v same f = refuses b v same
  filled-Joins old b (some ms) v same f =
      joins _
        (record {
          places = ground (arith, f.same_length, v.places);
          counted = ground (arith, f.one_more, v.counted);
          turn = v.turn;
        })
        λ a na. ground (arith, f.holds a na, same a na)

  place-Joins :
      (old b : Binding)
      → InOrder b
      → ((a : Ptr) → a ≢ null → times a b.members ≡ times a old.members)
      → Joins sink old (place b sink)
  unfolding place
  place-Joins old b v same = filled-Joins old b _ v same (fill-Filled sink b.members ne)

  -- A subscription to a binding in order that is not full.
  pub subscribe-Joins :
      (junk : Option (List Ptr)) (b : Binding)
      → InOrder b
      → b.members_count ≢ b.members_max
      → Joins sink b (subscribe junk b sink)
  unfolding subscribe
  subscribe-Joins junk b v room =
      let stays : (b.members_count == b.members_max) ≡ false = ground arith in
      rw stays (place-Joins b b v λ a na. refl)
