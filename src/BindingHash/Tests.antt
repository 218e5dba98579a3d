-- ===== src/BindingHash/Tests.antt =====
-- Runs of binding_hash.c, and its theorems at a concrete table.
use lmq.Prelude.{ℕ, ◌<◌, ◌≡◌, refl, true, some, List, [], ◌∷◌, ◌==◌, arith, length}
use lmq.Pbuf.{Bytes}
use lmq.Dlist.{Ptr, null}
use lmq.Dlist.Seg.{nil}
use lmq.Buckets.{Buckets, update}
use lmq.Buckets.Table.{IsTable}
use lmq.Stomp.Text.{codes}
use lmq.BindingHash.{slot, register, lookup, unregister}
use lmq.BindingHash.Names.{named, register-lookup, Erases, unregister-Erases}

abbrev name : Bytes
name = codes "/topic/a"

abbrev names : Ptr → Bytes
names p = name

abbrev empty : Buckets
empty = record { head = λ i. null; links = λ p. record { next = null; prev = null } }

abbrev no_chains : ℕ → List Ptr
no_chains i = []

empty-IsTable : IsTable (λ p. slot (names p)) empty no_chains
empty-IsTable = record { chain = λ i. nil; placed = λ i p m. absurd (cc) }

slot_run : slot name ≡ 104
unfolding slot
slot_run = refl

register-lookup_example :
    IsTable (λ p. slot (names p)) (register names empty 16) (update no_chains (slot name) (16 ∷ []))
    × (lookup names 2 (register names empty 16) name ≡ some 16)
register-lookup_example = register-lookup names empty-IsTable 2 16 (omega arith) refl (omega arith)

-- The buckets of the table with one binding.
abbrev chains : ℕ → List Ptr
chains = update no_chains (slot name) (16 ∷ [])

short : length (chains (slot name)) < 2
short = let here : (slot name == slot name) ≡ true = ground arith in rw here (omega arith)

unregister-Erases_example :
    (t' : Buckets) × (unregister names 2 (register names empty 16) name ≡ some t')
    × Erases names
        (register-lookup names empty-IsTable 2 16 (omega arith) refl (omega arith)).0
        (slot name)
        (named names name (chains (slot name)))
        t'
unregister-Erases_example =
    unregister-Erases names
      (register-lookup names empty-IsTable 2 16 (omega arith) refl (omega arith)).0 2 name short
