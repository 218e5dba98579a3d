-- ===== src/Binding/Turns.antt =====
-- The turn of a queue of binding.c is one of the places for its members.
use native.Mathlib.Nat.{mod-lt, mod-eq_of_lt, mod-add-mod, add-mod_right}
use lmq.Prelude.{
  ap, ℕ, zero, suc, ◌+◌, ◌-◌, ◌%◌, ◌<◌, ◌≡◌, ◌≢◌, refl, sym, subst, ◌∙◌, inl, inr, List, [], ◌∷◌,
  ◌==◌, ltb, Bool-cases, arith, get_or, length,
}
use lmq.Dlist.{Ptr, null}
use lmq.Binding.{Binding, Kind, topic, queue, next_member}
use lmq.Binding.Members.{IsValid, count, times}
use lmq.Binding.Delivery.{turn, Passed, Chosen, nobody, member}

abbrev pub InTurn : Kind → ℕ → Type 0
InTurn topic members = Unit
InTurn (queue round) members = 0 < members → round < members

-- A valid binding whose turn is at a place.
pub record InOrder (b : Binding) : Type 0 where
  pub places : length b.members ≡ b.members_max
  pub counted : count b.members ≡ b.members_count
  pub turn : InTurn b.kind b.members_max

pub InOrder-IsValid : {b : Binding} → InOrder b → IsValid b
InOrder-IsValid v = record { places = v.places; counted = v.counted }

next_in :
    (members : ℕ) (ms : List Ptr) (i round : ℕ)
    → 0 < members
    → round < members
    → (next_member members ms i round).0 < members
unfolding next_member
next_in members ms zero round pos lt = lt
next_in members ms (suc i) round pos lt =
    let next : (round + 1) % members < members = mod-lt (round + 1) pos in
    elim (Bool-cases (get_or ms round null == null)) [
      | inl e ↦ rw e (next_in members ms i ((round + 1) % members) pos next)
      | inr e ↦ rw e next
    ]

-- The turn behind a push, which starts with the turn `round`
pub next_member-InTurn :
    (members : ℕ) (ms : List Ptr) (round : ℕ)
    → InTurn (queue round) members
    → InTurn (queue (next_member members ms members round).0) members
next_member-InTurn members ms round v pos = next_in members ms members round pos (v pos)

turn-mod : (members round d : ℕ) → round < members → turn members round d ≡ (round + d) % members
unfolding turn
turn-mod members round zero lt =
    sym (mod-eq_of_lt (omega arith)) ∙ ap (λ n. n % members) (omega arith)
turn-mod members round (suc d) lt =
    turn-mod members ((round + 1) % members) d (mod-lt (round + 1) (omega arith))
    ∙ mod-add-mod (round + 1) members d
    ∙ ap (λ n. n % members) (omega arith)

-- Every place has its turn.
has_turn :
    (members round j : ℕ)
    → round < members
    → j < members
    → (d : ℕ) × (d < members) × (turn members round d ≡ j)
has_turn members round j lt h = elim (Bool-cases (ltb j round)) [
  | inl e ↦
      let around : round + (j + members - round) ≡ j + members = ground arith in
      (
        j + members - round,
        ground arith,
        turn-mod members round (j + members - round) lt
            ∙ ap (λ n. n % members) around
            ∙ add-mod_right j members
            ∙ mod-eq_of_lt h,
      )
  | inr e ↦
      let on : round + (j - round) ≡ j = ground arith in
      (
        j - round,
        ground arith,
        turn-mod members round (j - round) lt ∙ ap (λ n. n % members) on ∙ mod-eq_of_lt h,
      )
]

place_of :
    (q : Ptr) (ms : List Ptr) → 0 < times q ms → (j : ℕ) × (j < length ms) × (get_or ms j null ≡ q)
unfolding times
place_of q [] lt = absurd (omega arith)
place_of q (p ∷ ps) lt = elim (Bool-cases (p == q)) [
  | inl e ↦ (0, omega arith, ground arith)
  | inr e ↦ let (j, h, is) = place_of q ps (ground (arith, lt)) in (suc j, omega arith, is)
]

times-place : (ms : List Ptr) (j : ℕ) → get_or ms j null ≢ null → 0 < times (get_or ms j null) ms
unfolding times
times-place [] j ne = absurd (ne refl)
times-place (p ∷ ps) zero ne = ground arith
times-place (p ∷ ps) (suc j) ne = omega (arith, times-place ps j ne)

-- A queue that has a member chooses the first one from its turn on.
pub Chosen-member :
    (b : Binding) (round : ℕ) (q : Ptr) (r : ℕ × Ptr)
    → length b.members ≡ b.members_max
    → InTurn (queue round) b.members_max
    → q ≢ null
    → 0 < times q b.members
    → Chosen b.members_max b.members b.members_max round r
    → (d : ℕ) × (d < b.members_max)
      × Passed b.members_max b.members round d
      × (get_or b.members (turn b.members_max round d) null ≢ null)
      × (0 < times (get_or b.members (turn b.members_max round d) null) b.members)
Chosen-member b round q _ places v ne lt (nobody p) =
    let (j, h, is) = place_of q b.members lt in
    let (d, h', at) = has_turn b.members_max round j (v (omega arith)) (omega arith) in
    absurd (ne (sym is ∙ subst (λ k. get_or b.members k null ≡ null) at (p d h')))
Chosen-member b round q _ places v ne lt (member d h p some_member) =
    (d, h, p, some_member, times-place b.members _ some_member)
