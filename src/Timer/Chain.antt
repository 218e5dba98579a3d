-- ===== src/Timer/Chain.antt =====
-- A timer that libsf/sf_timer.c links behind another one of a list.
use lmq.Prelude.{
  ℕ, zero, suc, ◌<◌, ◌≡◌, ◌≢◌, refl, subst, inl, inr, true, false, ◌&&◌, not, some, List, [], ◌∷◌,
  ◌==◌, if◌then◌else◌, Bool-cases, arith, length,
}
use lmq.Dlist.{Ptr, null, Heap, mem}
use lmq.Dlist.Seg.{Seg, nil, cons, frame, first}
use lmq.Dlist.Unlink.{erase, head-Seg, next-Seg}
use lmq.Timer.{Timers, later, chain_next, chain_behind}

-- A list with `timer` behind its first `t`.
unfoldable pub insert_behind : Ptr → Ptr → List Ptr → List Ptr
insert_behind t timer [] = []
insert_behind t timer (x ∷ xs) = if x == t then x ∷ timer ∷ xs else x ∷ insert_behind t timer xs

-- The last one of a list behind `p`.
unfoldable pub last : Ptr → List Ptr → Ptr
last p [] = p
last p (x ∷ xs) = last x xs

pub last-ne : (p x : Ptr) (xs : List Ptr) → mem p (x ∷ xs) ≡ false → (last x xs == p) ≡ false
unfolding last
last-ne p x [] out = ground arith
last-ne p x (y ∷ ys) out = last-ne p y ys (ground arith)

mem-insert_behind :
    (a t timer : Ptr) (xs : List Ptr)
    → a ≢ timer
    → mem a xs ≡ false
    → mem a (insert_behind t timer xs) ≡ false
unfolding insert_behind
mem-insert_behind a t timer [] ne out = refl
mem-insert_behind a t timer (x ∷ xs) ne out = ground (arith, mem-insert_behind a t timer xs)

module _ (h : Heap) (t timer : Ptr) (ne : timer ≢ t) (after : timer ≢ (h t).next)
    (own : t ≢ (h t).next) where
  chain_next_lem :
      (a : Ptr)
      → chain_next h t timer a ≡ record {
        next = if a == timer then (h t).next else if a == t then timer else (h a).next;
        prev =
            if a == timer
            then t
            else if (a == (h t).next) && not (a == null)
            then timer
            else (h a).prev;
      }
  unfolding chain_next
  chain_next_lem a = ground arith

  chained-frame : (a : Ptr) → a ≢ timer → a ≢ t → a ≢ (h t).next → chain_next h t timer a ≡ h a
  chained-frame a n1 n2 n3 = ground (arith, chain_next_lem a)

  -- The rest of the list behind the new timer.
  chained-rest :
      {q : Ptr} {ps : List Ptr}
      → Seg h t q ps
      → (h t).next ≡ q
      → mem t ps ≡ false
      → mem timer ps ≡ false
      → Seg (chain_next h t timer) timer q ps
  chained-rest nil e out new = nil
  chained-rest (cons {p = y} nn back o s) e out new =
      let same = chain_next_lem y in
      let next : (chain_next h t timer y).next ≡ (h y).next = ground (arith, same) in
      cons nn (ground (arith, same)) o (
        rw next (
          frame s
            λ a i. chained-frame a (ground (arith, i)) (ground (arith, i)) (ground (arith, i))))

-- No timer of a list is its own next one.
self :
    {h : Heap} (t : Ptr) {prev p : Ptr} {ps : List Ptr}
    → Seg h prev p ps
    → mem t ps ≡ true
    → t ≢ (h t).next
self t nil i = cc
self {h} t (cons {p = x} nn back o s) i = elim (Bool-cases (x == t)) [
  | inl e ↦ ground (arith, head-Seg s)
  | inr e ↦ self t s (ground arith)
]

-- A timer that is linked behind one of a list is there, and the others are as before.
pub chain_next-Seg :
    {h : Heap} (t timer : Ptr) {prev p : Ptr} {ps : List Ptr}
    → timer ≢ null
    → Seg h prev p ps
    → mem t ps ≡ true
    → mem timer ps ≡ false
    → Seg (chain_next h t timer) prev p (insert_behind t timer ps)
unfolding insert_behind
chain_next-Seg t timer some_timer nil i new = cc
chain_next-Seg {h} t timer some_timer (cons {p = x} {ps = xs} nn back o s) i new =
    elim (Bool-cases (x == t)) [
      | inl e ↦
          let same : x ≡ t = ground arith in
          let own : t ≢ (h t).next = ground (arith, head-Seg s) in
          let after : timer ≢ (h t).next = ground (arith, head-Seg s) in
          let ne : timer ≢ t = ground arith in
          let here = chain_next_lem h t timer ne after own in
          let rest =
            chained-rest h t timer ne after own (subst (λ y. Seg h y (h y).next xs) same s) refl
              (ground (arith, o)) (ground (arith, new)) in
          let next : (chain_next h t timer x).next ≡ timer = ground (arith, here x) in
          let next' : (chain_next h t timer timer).next ≡ (h t).next = ground (arith, here timer) in
          rw e (
            cons nn (ground (arith, here x, back)) (ground arith) (
              rw next
                (cons some_timer (ground (arith, here timer)) (ground arith) (rw next' rest))))
      | inr e ↦
          let in_rest : mem t xs ≡ true = ground arith in
          let own : t ≢ (h t).next = ground (arith, self t s in_rest) in
          let after : timer ≢ (h t).next = ground (arith, next-Seg t s) in
          let ne : timer ≢ t = ground arith in
          let here = chain_next_lem h t timer ne after own in
          let before : x ≢ (h t).next = ground (arith, next-Seg t s) in
          let next : (chain_next h t timer x).next ≡ (h x).next = ground (arith, here x) in
          rw e (
            cons nn (ground (arith, here x, back)) (mem-insert_behind x t timer xs (ground arith) o)
              (rw next (chain_next-Seg t timer some_timer s in_rest (ground arith))))
    ]

pub last-insert_behind :
    {h : Heap} (t timer : Ptr) {prev p : Ptr} {ps : List Ptr}
    → Seg h prev p ps
    → mem t ps ≡ true
    → last prev (insert_behind t timer ps) ≡ (if last prev ps == t then timer else last prev ps)
unfolding insert_behind last
last-insert_behind t timer nil i = cc
last-insert_behind t timer (cons {p = x} {ps = []} nn back o s) i = ground arith
last-insert_behind t timer (cons {p = x} {ps = y ∷ ys} nn back o s) i = elim (Bool-cases (x == t)) [
  | inl e ↦ ground (arith, last-ne x y ys)
  | inr e ↦ rw e (last-insert_behind t timer s (ground arith))
]

pub last-erase :
    {h : Heap} (timer : Ptr) {prev p : Ptr} {ps : List Ptr}
    → Seg h prev p ps
    → mem timer ps ≡ true
    → last prev (erase timer ps) ≡ (if last prev ps == timer then (h timer).prev else last prev ps)
unfolding erase last
last-erase timer nil i = cc
last-erase timer (cons {p = x} {ps = []} nn back o s) i = ground arith
last-erase timer (cons {p = x} {ps = y ∷ ys} nn back o s) i = elim (Bool-cases (x == timer)) [
  | inl e ↦ ground (arith, last-ne x y ys)
  | inr e ↦ rw e (last-erase timer s (ground arith))
]

-- The last loop of the registration finds the first timer of the list that is for an earlier time.
pub chain_behind-first :
    (fuel : ℕ) (ti : Timers) (timer : Ptr) {prev p : Ptr} {ps : List Ptr}
    → Seg ti.links prev p ps
    → length ps < fuel
    → chain_behind fuel ti p timer
      ≡ some (
          let t = first (λ a. later (ti.time timer) (ti.time a)) ps in
          if t == null then ti else record ti { links = chain_next ti.links t timer })
unfolding chain_behind first
chain_behind-first zero ti timer s f = absurd (omega arith)
chain_behind-first (suc fuel) ti timer nil f = refl
chain_behind-first (suc fuel) ti timer (cons {p = p} {ps = ps} nn back o s) f =
    let none_yet : (p == null) ≡ false = ground arith in
    rw none_yet (elim (Bool-cases (later (ti.time timer) (ti.time p))) [
      | inl e ↦ rw e (rw none_yet refl)
      | inr e ↦ rw e (chain_behind-first fuel ti timer s (omega arith))
    ])
