-- ===== src/BindingHash.antt =====
-- The hash table of mqcore/binding_hash.c and mqcore/binding_hash.h: the bindings by their names.
pub mod Names
mod Tests
use lmq.Prelude.{
  ℕ, ◌%◌, Bool, true, false, Option, none, some, List, [], ◌∷◌, same_bytes, ◌==◌, if◌then◌else◌,
}
use lmq.Pbuf.{Bytes}
use lmq.Dlist.{Ptr, null, find}
use lmq.Buckets.{Buckets, insert, remove, search}
use lmq.Fnv.{basis, fnv}

abbrev pub table_size : ℕ
table_size = 257

-- `binding_calc_hash`, of a name up to its NUL
unfoldable pub calc_hash : Bytes → ℕ
unfolding fnv
calc_hash name = fnv basis name

unfoldable pub slot : Bytes → ℕ
unfolding calc_hash
slot name = calc_hash name % table_size

-- What `binding_hash_unregister` does with the result of its lookup.
unfoldable pub remove_found : Buckets → ℕ → Ptr → Buckets
unfolding remove
remove_found t i bi = if bi == null then t else remove t i bi

unfoldable pub unregistered : Buckets → ℕ → Option Ptr → Option Buckets
unfolding remove_found
unregistered t i none = none
unregistered t i (some bi) = some (remove_found t i bi)

-- The table, with the names of the bindings, which do not change. A name without a NUL in its array
-- makes the code read what is behind it, so the names are those with one.
module _ (name_of : Ptr → Bytes) where
  -- `binding_hash_register`
  unfoldable pub register : Buckets → Ptr → Buckets
  unfolding slot insert
  register t bi = insert t (slot (name_of bi)) bi

  -- `binding_hash_lookup`; `none` where the fuel runs out
  unfoldable pub lookup : ℕ → Buckets → Bytes → Option Ptr
  unfolding slot search
  lookup fuel t name = search (λ p. same_bytes (name_of p) name) fuel t (slot name)

  -- `binding_hash_unregister`
  unfoldable pub unregister : ℕ → Buckets → Bytes → Option Buckets
  unfolding lookup unregistered
  unregister fuel t name = unregistered t (slot name) (lookup fuel t name)
