-- ===== src/Dlist/Unlink.antt =====
-- A record put before the first of a bucket, and a record taken out of its bucket.
use lmq.Prelude.{
  ◌≡◌, ◌≢◌, ◌⊎◌, refl, sym, ap, subst, ◌∙◌, inl, inr, Bool, true, false, ◌&&◌, not, List, [], ◌∷◌,
  ◌==◌, if◌then◌else◌, Bool-cases, arith,
}
use lmq.Dlist.{Ptr, null, Heap, push_front, unlinked, unlink, mem}
use lmq.Dlist.Seg.{Seg, nil, cons, frame, first}

module _ (h : Heap) (head p : Ptr) where
  push_front_new : (push_front h head p).0 p ≡ record { next = head; prev = null }
  unfolding push_front
  push_front_new = ground arith

  push_front_old :
      head ≢ null
      → p ≢ head
      → (push_front h head p).0 head ≡ record { next = (h head).next; prev = p }
  unfolding push_front
  push_front_old ne other = ground arith

  -- The links of other records stay as they are.
  pub push_front-frame : (a : Ptr) → a ≢ p → a ≢ head → (push_front h head p).0 a ≡ h a
  unfolding push_front
  push_front-frame a np nh = ground arith

-- A record that is registered becomes the first of its bucket, in front of the others.
pub push_front-Seg :
    {h : Heap} {head : Ptr} {ps : List Ptr} (p : Ptr)
    → Seg h null head ps
    → p ≢ null
    → mem p ps ≡ false
    → Seg (push_front h head p).0 null p (p ∷ ps)
push_front-Seg {h} p nil ne out = let e = push_front_new h null p in cons ne (rw e) out (rw e nil)
push_front-Seg {h} p (cons {p = q} {ps = ps} nq back o s) ne out =
    let e = push_front_new h q p in
    let e' = push_front_old h q p nq (ground arith) in
    cons ne (rw e) out (
      rw e (
        cons nq (rw e') o
          (rw e' (frame s λ a i. push_front-frame h q p a (ground arith) (ground arith)))))

module _ (h : Heap) (p : Ptr) where
  -- What unlinking does to each record's links.
  unlinked_lem :
      (a : Ptr)
      → (h p).next ≢ p
      → (h p).prev ≢ p
      → unlinked h p a ≡ record {
        next = if (a == (h p).prev) && not (a == null) then (h p).next else (h a).next;
        prev = if (a == (h p).next) && not (a == null) then (h p).prev else (h a).prev;
      }
  unfolding unlinked
  unlinked_lem a n m = ground arith

-- The list without its first `p`.
unfoldable pub erase : Ptr → List Ptr → List Ptr
erase p [] = []
erase p (x ∷ xs) = if x == p then xs else x ∷ erase p xs

pub not-mem-erase : (a p : Ptr) (xs : List Ptr) → mem a xs ≡ false → mem a (erase p xs) ≡ false
unfolding erase
not-mem-erase a p [] out = refl
not-mem-erase a p (x ∷ xs) out = ground (arith, not-mem-erase a p xs)

module _ {h : Heap} where
  -- The record before one of a bucket is another of the bucket, or the one before all.
  prev-Seg :
      (a : Ptr) {prev p : Ptr} {ps : List Ptr}
      → Seg h prev p ps
      → mem a ps ≡ true
      → ((a ≡ p) × ((h a).prev ≡ prev)) ⊎ ((a ≢ p) × (mem (h a).prev ps ≡ true))
  prev-Seg a nil i = cc
  prev-Seg a (cons {p = p} ne back out s) i = elim (Bool-cases (a == p)) [
    | inl e ↦ inl (ground arith, ground arith)
    | inr e ↦ inr (ground arith, ground (arith, prev-Seg a s))
  ]

  pub head-Seg : {prev p : Ptr} {ps : List Ptr} → Seg h prev p ps → (p ≡ null) ⊎ (mem p ps ≡ true)
  head-Seg nil = inl refl
  head-Seg (cons {p = p} ne back out s) = inr (ground arith)

  pub next-Seg :
      (a : Ptr) {prev p : Ptr} {ps : List Ptr}
      → Seg h prev p ps
      → mem a ps ≡ true
      → ((h a).next ≡ null) ⊎ (mem (h a).next ps ≡ true)
  next-Seg a nil i = cc
  next-Seg a (cons {p = p} ne back out s) i = elim (Bool-cases (a == p)) [
    | inl e ↦ ground (arith, head-Seg s)
    | inr e ↦ ground (arith, next-Seg a s)
  ]

  -- Which record points to `p`, seen from both sides.
  link-Seg :
      (x p : Ptr) {q : Ptr} {ps : List Ptr}
      → Seg h x q ps
      → mem p ps ≡ true
      → mem x ps ≡ false
      → (q == p) ≡ (x == (h p).prev)
  link-Seg x p s i out = ground (arith, prev-Seg p s)

module _ (h : Heap) (p : Ptr) (n : (h p).next ≢ p) (m : (h p).prev ≢ p) where
  -- The links of a record that is no neighbour of `p` stay as they are.
  pub unlinked-frame : (a : Ptr) → a ≢ (h p).prev → a ≢ (h p).next → unlinked h p a ≡ h a
  unlinked-frame a np nn = ground (arith, unlinked_lem h p a)

  unlinked-next : (a : Ptr) → a ≢ (h p).prev → (unlinked h p a).next ≡ (h a).next
  unlinked-next a np = ground (arith, unlinked_lem h p a)

  unlinked-prev : (a : Ptr) → a ≢ (h p).next → (unlinked h p a).prev ≡ (h a).prev
  unlinked-prev a nn = ground (arith, unlinked_lem h p a)

  -- The rest of the bucket behind a record that was the first.
  unlinked-first :
      {q : Ptr} {ps : List Ptr}
      → Seg h p q ps
      → (h p).next ≡ q
      → mem (h p).prev ps ≡ false
      → Seg (unlinked h p) (h p).prev q ps
  unlinked-first nil e out = nil
  unlinked-first (cons {p = y} {ps = ys} ne back o s) e out =
      cons ne (ground (arith, unlinked_lem h p y)) o (
        rw (unlinked-next y (ground arith))
          (frame s λ a i. unlinked-frame a (ground arith) (ground arith)))

unlink-Seg :
    {h : Heap} {prev head : Ptr} {ps : List Ptr} (p : Ptr)
    → (h p).next ≢ p
    → (h p).prev ≢ p
    → Seg h prev head ps
    → mem p ps ≡ true
    → mem prev ps ≡ false
    → Seg (unlinked h p) prev (if head == p then (h p).next else head) (erase p ps)
unfolding erase
unlink-Seg p n m nil i out = cc
unlink-Seg {h} {prev} p n m (cons {p = x} {ps = xs} ne back o s) i out =
    elim (Bool-cases (x == p)) [
      | inl e ↦
          let same : x ≡ p = ground arith in
          let first : Seg h p (h p).next xs = subst (λ y. Seg h y (h y).next xs) same s in
          let back' : (h p).prev ≡ prev = ap (λ y. (h y).prev) (sym same) ∙ back in
          rw e (
            subst (λ v. Seg (unlinked h p) v (h p).next xs) back'
              (unlinked-first h p n m first refl (rw back' (ground arith))))
      | inr e ↦
          let in_rest : mem p xs ≡ true = ground arith in
          let before : x ≢ (h p).next = ground (arith, next-Seg p s) in
          let next : (unlinked h p x).next ≡ (if (h x).next == p then (h p).next else (h x).next) =
            ground (arith, unlinked_lem h p x, link-Seg x p s) in
          rw e (
            cons ne (unlinked-prev h p n m x before ∙ back) (not-mem-erase x p xs o)
              (rw next (unlink-Seg p n m s in_rest o)))
    ]

pub not-mem-null : {h : Heap} {prev p : Ptr} {ps : List Ptr} → Seg h prev p ps → mem null ps ≡ false
not-mem-null nil = refl
not-mem-null (cons ne back out s) = ground (arith, not-mem-null s)

-- No record of a bucket is its own neighbour.
self-Seg :
    {h : Heap} (a : Ptr) {prev p : Ptr} {ps : List Ptr}
    → Seg h prev p ps
    → mem a ps ≡ true
    → mem prev ps ≡ false
    → ((h a).next ≢ a) × ((h a).prev ≢ a)
self-Seg a nil i out = cc
self-Seg {h} a (cons {p = p} {ps = ps} ne back o s) i out = elim (Bool-cases (a == p)) [
  | inl e ↦ (ground (arith, head-Seg s), ground arith)
  | inr e ↦ let rest = self-Seg a s (ground arith) o in (rest.0, rest.1)
]

module _ {h : Heap} {head : Ptr} {ps : List Ptr} (p : Ptr) (s : Seg h null head ps)
    (i : mem p ps ≡ true) where
  pub alone : ((h p).next ≢ p) × ((h p).prev ≢ p)
  alone = self-Seg p s i (not-mem-null s)

  -- A record that is taken out of its bucket leaves the others, in their order.
  pub unlink_lem : Seg (unlink h head p).0 null (unlink h head p).1 (erase p ps)
  unfolding unlink
  unlink_lem =
      rw (unlinked-next h p alone.0 alone.1 p (λ e. alone.1 (sym e)))
        (unlink-Seg p alone.0 alone.1 s i (not-mem-null s))

  -- The links of the records of other buckets stay as they are.
  pub unlink-frame : (a : Ptr) → a ≢ null → mem a ps ≡ false → (unlink h head p).0 a ≡ h a
  unfolding unlink
  unlink-frame a ne out =
      unlinked-frame h p alone.0 alone.1 a (ground (arith, prev-Seg p s))
        (ground (arith, next-Seg p s))

pub mem-first :
    (test : Ptr → Bool) (ps : List Ptr) → first test ps ≢ null → mem (first test ps) ps ≡ true
unfolding first
mem-first test [] ne = absurd (ne refl)
mem-first test (p ∷ ps) ne = ground (arith, mem-first test ps)
