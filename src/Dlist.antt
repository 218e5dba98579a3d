-- ===== src/Dlist.antt =====
-- The doubly linked lists inside records that the hash tables of mqcore/binding_hash.c and
-- libsf/sf_session.c keep for each bucket. A pointer is a number, and 0 is NULL; the link fields of
-- all records are one map, since the code writes them one by one.
pub mod Seg
pub mod Unlink
use lmq.Prelude.{
  ℕ, zero, suc, Bool, true, false, ◌||◌, Option, none, some, List, [], ◌∷◌, ◌==◌, if◌then◌else◌,
}

abbrev pub Ptr : Type 0
Ptr = ℕ

abbrev pub null : Ptr
null = 0

-- `bi_hash_next` and `bi_hash_prev`, or `se_hash_next` and `se_hash_prev`
pub record Links : Type 0 where
  pub next : Ptr
  pub prev : Ptr

abbrev pub Heap : Type 0
Heap = Ptr → Links

unfoldable pub set_next : Heap → Ptr → Ptr → Heap
set_next h p q a = if a == p then record { next = q; prev = (h a).prev } else h a

unfoldable pub set_prev : Heap → Ptr → Ptr → Heap
set_prev h p q a = if a == p then record { next = (h a).next; prev = q } else h a

-- The registration of `p` before the record that the bucket points to: the new links and the new
-- pointer of the bucket.
unfoldable pub push_front : Heap → Ptr → Ptr → Heap × Ptr
unfolding set_next set_prev
push_front h head p =
    let h1 = if head == null then h else set_prev h head p in
    (set_prev (set_next h1 p head) p null, p)

-- The links of `p` taken out of its neighbours.
unfoldable pub unlinked : Heap → Ptr → Heap
unfolding set_next set_prev
unlinked h p =
    let h1 = if (h p).prev == null then h else set_next h (h p).prev (h p).next in
    if (h1 p).next == null then h1 else set_prev h1 (h1 p).next (h1 p).prev

unfoldable pub unlink : Heap → Ptr → Ptr → Heap × Ptr
unfolding unlinked
unlink h head p = (unlinked h p, if head == p then (unlinked h p p).next else head)

-- The search along a bucket from `p` on, for the first record that passes the test. `none` means
-- that the fuel ran out, and `some null` that there is none.
unfoldable pub find : (Ptr → Bool) → ℕ → Heap → Ptr → Option Ptr
find test zero h p = none
find test (suc fuel) h p =
    let rest = find test fuel h (h p).next in
    if p == null then some null else if test p then some p else rest

abbrev pub mem : Ptr → List Ptr → Bool
mem a [] = false
mem a (p ∷ ps) = (a == p) || mem a ps
