-- ===== src/Buckets.antt =====
-- The hash tables of mqcore/binding_hash.c and of libsf/sf_session.c have one shape: an array of
-- pointers to the first records of doubly linked lists. This is that shape, over the place in the
-- array that a record's key gives.
pub mod Table
use lmq.Prelude.{ℕ, Bool, Option, ◌==◌, if◌then◌else◌}
use lmq.Dlist.{Ptr, Heap, push_front, unlink, find}

-- `bh_hashtab` or `seh_table`, and the link fields of the records.
pub record Buckets : Type 0 where
  pub head : ℕ → Ptr
  pub links : Heap

abbrev pub update {ℓ} : {A : Type ℓ} → (ℕ → A) → ℕ → A → ℕ → A
update f i v j = if i == j then v else f j

abbrev pub with_bucket : Buckets → ℕ → Heap × Ptr → Buckets
with_bucket t i r = record { head = update t.head i r.1; links = r.0 }

unfoldable pub insert : Buckets → ℕ → Ptr → Buckets
unfolding push_front
insert t i p = with_bucket t i (push_front t.links (t.head i) p)

unfoldable pub remove : Buckets → ℕ → Ptr → Buckets
unfolding unlink
remove t i p = with_bucket t i (unlink t.links (t.head i) p)

unfoldable pub search : (Ptr → Bool) → ℕ → Buckets → ℕ → Option Ptr
unfolding find
search test fuel t i = find test fuel t.links (t.head i)
