-- ===== src/Pbuf/Contents.antt =====
-- What the operations of sf_pbuf.c do to the bytes between head and tail.
use lmq.Prelude.{
  ℕ, zero, suc, ◌+◌, ◌-◌, ◌≤◌, ◌<◌, ◌≡◌, refl, sym, ap, ◌∙◌, inl, inr, true, false, Option, none,
  some, List, [], ◌∷◌, ◌++◌, ◌==◌, if◌then◌else◌, ltb, leb, leb→le, ltb→lt, arith, Bool-cases,
  length, append_assoc, length-append, length-take, take, drop, take-append_exact, drop-take,
  drop-drop,
}
use lmq.Pbuf.{
  Pbuf, Bytes, write_at, contents, data_len, free_len, writable_len, relocate, adjust, store,
  write_prepare, write,
}
use lmq.Pbuf.Inv.{IsValid, length-contents, length-write_at, relocate-IsValid, relocate_fields}

-- Bytes copied in behind a slice lengthen it by those bytes.
slice-append {ℓ} :
    {A : Type ℓ} (h t k j : ℕ) (xs ys rest : List A)
    → h ≤ t
    → t ≤ length xs
    → k ≡ t + length ys - h
    → j ≡ t - h
    → take k (drop h (take t xs ++ (ys ++ rest))) ≡ take j (drop h xs) ++ ys
slice-append zero t k j xs ys rest p q e d =
    ap (take k) (sym (append_assoc (take t xs) ys rest))
    ∙ take-append_exact k (take t xs ++ ys) rest
        (omega (arith, length-append (take t xs) ys, length-take t xs))
    ∙ ap (λ m. take m xs ++ ys) (omega arith)
slice-append (suc h) zero k j xs ys rest p q e d = absurd (omega arith)
slice-append (suc h) (suc t) k j [] ys rest p q e d = absurd (omega arith)
slice-append (suc h) (suc t) k j (x ∷ xs) ys rest p q e d =
    slice-append h t k j xs ys rest (omega arith) (omega arith) (omega arith) (omega arith)

module _ (p : Pbuf) (v : IsValid p) where
  moved : take (data_len p - 0) (write_at p.buf 0 (contents p)) ≡ contents p
  unfolding write_at
  moved =
      take-append_exact (data_len p - 0) (contents p) (drop (0 + length (contents p)) p.buf)
        (omega (arith, length-contents p v))

  none_moved : (ltb 0 (data_len p) ≡ false) → take (data_len p - 0) p.buf ≡ contents p
  unfolding contents
  none_moved h = let e : data_len p ≡ 0 = ground arith in rw e

  pub contents-relocate : contents (relocate p) ≡ contents p
  unfolding relocate
  contents-relocate = elim (Bool-cases (p.head == 0)) [
    | inl e ↦ rw e
    | inr e ↦ rw e (elim (Bool-cases (ltb 0 (data_len p))) [
      | inl m ↦ rw m (unfold contents in moved)
      | inr m ↦ rw m (unfold contents in none_moved m)
    ])
  ]

  -- The invariant and the bytes after `sf_pbuf_adjust`.
  shifted :
      (n : ℕ) → n ≤ data_len p → contents (record p { head = p.head + n }) ≡ drop n (contents p)
  unfolding contents
  shifted n h =
      ap (take (p.tail - (p.head + n))) (sym (drop-drop n p.head (p.head + n) p.buf (omega arith)))
      ∙ sym (drop-take n (p.tail - (p.head + n)) (data_len p) (drop p.head p.buf) (omega arith))

  shifted-IsValid : (n : ℕ) → n ≤ data_len p → IsValid (record p { head = p.head + n })
  shifted-IsValid n h = record {
    block = v.block;
    ordered = omega (arith, v.ordered);
    within = v.within;
  }

  store-IsValid : (bs : Bytes) → p.tail + length bs ≤ p.len → IsValid (store p bs)
  unfolding store
  store-IsValid bs h = ground (arith, length-write_at p.buf p.tail bs, v.block, v.ordered, v.within)

  contents-store :
      (bs : Bytes) → p.tail + length bs ≤ p.len → contents (store p bs) ≡ contents p ++ bs
  unfolding store contents write_at
  contents-store bs h =
      slice-append p.head p.tail _ _ p.buf bs _ v.ordered (omega (arith, v.block, v.within)) refl
        refl

-- What `sf_pbuf_adjust` leaves: it drops `n` bytes if there are as many and none otherwise, and
-- moves the rest to the start of the block.
pub record Adjusted (p : Pbuf) (n : ℕ) (q : Pbuf) : Type 0 where
  pub valid : IsValid q
  pub at_start : q.head ≡ 0
  pub same_len : q.len ≡ p.len
  pub bytes : contents q ≡ (if leb n (data_len p) then drop n (contents p) else contents p)

relocate-Adjusted :
    (p q : Pbuf) (n : ℕ)
    → IsValid q
    → q.len ≡ p.len
    → contents q ≡ (if leb n (data_len p) then drop n (contents p) else contents p)
    → Adjusted p n (relocate q)
relocate-Adjusted p q n v l e = record {
  valid = relocate-IsValid q v;
  at_start = (relocate_fields q v).0;
  same_len = (relocate_fields q v).2 ∙ l;
  bytes = contents-relocate q v ∙ e;
}

-- On a valid buffer, `sf_pbuf_adjust` drops `n` bytes from the front of the data if it holds as
-- many, and drops none otherwise; either way the data then starts at the block's start, the
-- buffer is valid and its size is as before.
pub adjust_lem : (p : Pbuf) (n : ℕ) → IsValid p → Adjusted p n (adjust p n)
unfolding adjust
adjust_lem p n v = elim (Bool-cases (leb n (data_len p))) [
  | inl h ↦
      let le = leb→le n (data_len p) h in
      rw h (relocate-Adjusted p _ n (shifted-IsValid p v n le) refl (rw h (shifted p v n le)))
  | inr h ↦ rw h (relocate-Adjusted p p n v refl (rw h))
]

-- What `sf_pbuf_write` returns: `none` only for want of room, and otherwise the buffer with the
-- bytes behind its data.
abbrev pub Writes : Pbuf → Bytes → Option Pbuf → Type 0
Writes p bs none = free_len p < length bs
Writes p bs (some q) =
    IsValid q
    × (contents q ≡ contents p ++ bs)
    × (data_len q ≡ data_len p + length bs)
    × (q.len ≡ p.len)
    × (length bs ≤ free_len p)
    × (p.head ≡ 0 → q.head ≡ 0)

pub store-Writes :
    (p : Pbuf) (bs : Bytes)
    → IsValid p
    → p.tail + length bs ≤ p.len
    → Writes p bs (some (store p bs))
unfolding store
store-Writes p bs v h = (
  store-IsValid p v bs h,
  contents-store p v bs h,
  omega (arith, v.ordered),
  refl,
  omega (arith, v.ordered),
  λ e. e,
)

relocated-Writes :
    (p : Pbuf) (bs : Bytes)
    → IsValid p
    → length bs ≤ free_len p
    → Writes p bs (some (store (relocate p) bs))
relocated-Writes p bs v h =
    let f = relocate_fields p v in
    let w =
      store-Writes (relocate p) bs (relocate-IsValid p v) (omega (arith, f, v.ordered, v.within)) in
    (
      w.0,
      w.1 ∙ ap (λ c. c ++ bs) (contents-relocate p v),
      omega (arith, w.2, f.0, f.1),
      w.3 ∙ f.2,
      h,
      λ _. w.5 f.0,
    )

module _ (p : Pbuf) (bs : Bytes) where
  write_full : ltb (free_len p) (length bs) ≡ true → write p bs ≡ none
  unfolding write write_prepare
  write_full h = ground arith

  write_room :
      ltb (free_len p) (length bs) ≡ false
      → write p bs ≡ some (store (if ltb (writable_len p) (length bs) then relocate p else p) bs)
  unfolding write write_prepare
  write_room h = ground arith

-- On a valid buffer, `sf_pbuf_write` fails exactly if the bytes do not fit in the free space
-- (also the space in front of the data counts), and otherwise appends them to the data, keeps the
-- buffer's size and validity, and leaves data that starts at the block's start there.
pub write_lem : (p : Pbuf) (bs : Bytes) → IsValid p → Writes p bs (write p bs)
write_lem p bs v = elim (Bool-cases (ltb (free_len p) (length bs))) [
  | inl full ↦ rw (write_full p bs full) (ltb→lt (free_len p) (length bs) full)
  | inr room ↦ rw (write_room p bs room) (elim (Bool-cases (ltb (writable_len p) (length bs))) [
    | inl tight ↦ rw tight (relocated-Writes p bs v (ground arith))
    | inr fits ↦ rw fits (store-Writes p bs v (ground (arith, v.ordered, v.within)))
  ])
]

relocate_at_start : (p : Pbuf) → p.head ≡ 0 → relocate p ≡ p
unfolding relocate
relocate_at_start p h = let e : (p.head == 0) ≡ true = ground arith in rw e

pub write_prepare_room :
    (p : Pbuf) (n : ℕ) → p.head ≡ 0 → ltb (free_len p) n ≡ false → write_prepare p n ≡ some p
unfolding write_prepare
write_prepare_room p n h room = ground (arith, relocate_at_start p h)

pub write_prepare_full : (p : Pbuf) (n : ℕ) → ltb (free_len p) n ≡ true → write_prepare p n ≡ none
unfolding write_prepare
write_prepare_full p n full = ground arith
