-- ===== src/Binding/Members.antt =====
-- The invariant of a binding of binding.c.
use lmq.Prelude.{
  ℕ, ◌+◌, ◌^◌, ◌/◌, ◌≤◌, ◌<◌, ◌≡◌, ◌≢◌, refl, ap, ◌∙◌, inl, inr, Bool, true, false, Option, none,
  some, List, [], ◌∷◌, ◌++◌, ◌==◌, if◌then◌else◌, Bool-cases, arith, length, length-append,
}
use lmq.Dlist.{Ptr, null}
use lmq.Binding.{Binding, behind, fill, filled, place, subscribe, zero_bytes, extend}

-- How many members there are, and how many places hold this pointer.
unfoldable pub count : List Ptr → ℕ
count [] = 0
count (p ∷ ps) = (if p == null then 0 else 1) + count ps

unfoldable pub times : Ptr → List Ptr → ℕ
times a [] = 0
times a (p ∷ ps) = (if p == a then 1 else 0) + times a ps

pub record IsValid (b : Binding) : Type 0 where
  pub places : length b.members ≡ b.members_max
  pub counted : count b.members ≡ b.members_count

pub count-le-length : (ps : List Ptr) → count ps ≤ length ps
unfolding count
count-le-length [] = omega arith
count-le-length (p ∷ ps) = ground (arith, count-le-length ps)

-- What a filled place changes: one more of the sink, as many of every other pointer but NULL.
pub record Fills (sink : Ptr) (old new : List Ptr) : Type 0 where
  pub same_length : length new ≡ length old
  pub one_more : count new ≡ count old + 1
  pub holds : (a : Ptr) → a ≢ null → times a new ≡ times a old + (if sink == a then 1 else 0)

abbrev pub Filled : Ptr → List Ptr → Option (List Ptr) → Type 0
Filled sink ps none = count ps ≡ length ps
Filled sink ps (some qs) = Fills sink ps qs

behind-Filled :
    (sink p : Ptr) (ps : List Ptr) (o : Option (List Ptr))
    → (p == null) ≡ false
    → Filled sink ps o
    → Filled sink (p ∷ ps) (behind p o)
unfolding count times
behind-Filled sink p ps none e f = ground (arith, f)
behind-Filled sink p ps (some qs) e f = record {
  same_length = ground (arith, f.same_length);
  one_more = ground (arith, f.one_more);
  holds = λ a ne. ground (arith, f.holds a ne);
}

pub fill-Filled : (sink : Ptr) (ps : List Ptr) → sink ≢ null → Filled sink ps (fill sink ps)
unfolding fill count times
fill-Filled sink [] ne = refl
fill-Filled sink (p ∷ ps) ne = elim (Bool-cases (p == null)) [
  | inl e ↦
      rw e (record { same_length = refl; one_more = ground arith; holds = λ a na. ground arith })
  | inr e ↦ rw e (behind-Filled sink p ps (fill sink ps) e (fill-Filled sink ps ne))
]

-- Either every place holds a member, or the sink has a place now.
pub record Gains (sink : Ptr) (old new : Binding) : Type 0 where
  pub valid : IsValid new
  pub gained : Fills sink old.members new.members
  pub same_max : new.members_max ≡ old.members_max

abbrev pub Subscribes : Ptr → Binding → Binding × Bool → Type 0
Subscribes sink b (b', false) = b.members_count ≡ b.members_max
Subscribes sink b (b', true) = Gains sink b b'

filled-Subscribes :
    (b : Binding) (sink : Ptr) (o : Option (List Ptr))
    → IsValid b
    → Filled sink b.members o
    → Subscribes sink b (filled b o)
filled-Subscribes b sink none v f = ground (arith, f, v.places, v.counted)
filled-Subscribes b sink (some ms) v f = record {
  valid = record {
    places = f.same_length ∙ v.places;
    counted = f.one_more ∙ ap (λ n. n + 1) v.counted;
  };
  gained = f;
  same_max = refl;
}

granted :
    {b : Binding} {sink : Ptr} {r : Binding × Bool}
    → Subscribes sink b r
    → b.members_count < b.members_max
    → (r.1 ≡ true) × Gains sink b r.0
granted {r = (b', true)} s room = (refl, s)
granted {r = (b', false)} s room = absurd (omega arith)

-- A sink that subscribes to a valid binding whose number of members is below its maximum becomes a
-- member: every pointer but NULL is held as often as before, the sink once more, and the binding is
-- valid.
pub subscribe-Gains :
    (junk : Option (List Ptr)) (b : Binding) (sink : Ptr)
    → sink ≢ null
    → IsValid b
    → b.members_count < b.members_max
    → ((subscribe junk b sink).1 ≡ true) × Gains sink b (subscribe junk b sink).0
unfolding subscribe place
subscribe-Gains junk b sink ne v room =
    let e : (b.members_count == b.members_max) ≡ false = ground arith in
    rw e (
      granted (filled-Subscribes b sink (fill sink b.members) v (fill-Filled sink b.members ne))
        room)

fill_full : (sink : Ptr) (ps : List Ptr) → count ps ≡ length ps → fill sink ps ≡ none
unfolding fill count
fill_full sink [] e = refl
fill_full sink (p ∷ ps) e = ground (arith, fill_full sink ps, count-le-length ps)

pub count-append : (xs ys : List Ptr) → count (xs ++ ys) ≡ count xs + count ys
unfolding count
count-append [] ys = ground arith
count-append (x ∷ xs) ys = ground (arith, count-append xs ys)

zero_bytes-count :
    (p q r s : Ptr)
    → 2 ^ 32 ≤ p
    → p ≢ null
    → q ≢ null
    → r ≢ null
    → s ≢ null
    → count (zero_bytes 4 (p ∷ q ∷ r ∷ s ∷ [])) ≡ 4
unfolding zero_bytes count
zero_bytes-count p q r s hp hp' hq hr hs = ground arith

full_fails :
    (b : Binding) (sink : Ptr) (ms : List Ptr)
    → count ms ≡ length ms
    → (filled b (fill sink ms)).1 ≡ false
full_fails b sink ms e = rw (fill_full sink ms e) refl

-- What happens to the ninth subscription of a binding, its first extension: `memset` clears four
-- bytes where there are four new pointers. If the four words that `realloc` leaves there are not
-- null and the first one does not fit into 32 bits, then the subscription fails.
pub subscribe-extend :
    (b : Binding) (sink p q r s : Ptr)
    → IsValid b
    → b.members_max ≡ 8
    → b.members_count ≡ 8
    → 2 ^ 32 ≤ p
    → q ≢ null
    → r ≢ null
    → s ≢ null
    → (subscribe (some (p ∷ q ∷ r ∷ s ∷ [])) b sink).1 ≡ false
unfolding subscribe place extend
subscribe-extend b sink p q r s v m c hp hq hr hs =
    let e : (b.members_count == b.members_max) ≡ true = ground arith in
    let four : b.members_max / 2 ≡ 4 = omega arith in
    let z = zero_bytes-count p q r s hp (ground arith) hq hr hs in
    let zs = zero_bytes 4 (p ∷ q ∷ r ∷ s ∷ []) in
    let full : count (b.members ++ zs) ≡ length (b.members ++ zs) =
      ground (arith, count-append b.members zs, length-append b.members zs, v.counted, v.places) in
    rw e (rw four (full_fails _ sink (b.members ++ zs) full))
