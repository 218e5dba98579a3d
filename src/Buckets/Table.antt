-- ===== src/Buckets/Table.antt =====
-- What a table of binding_hash.c or sf_session.c holds, and that its operations keep it in order.
use lmq.Prelude.{
  ℕ, ◌<◌, ◌≡◌, ◌≢◌, inl, inr, Bool, true, false, some, List, ◌∷◌, ◌==◌, Bool-cases, arith, length,
}
use lmq.Dlist.{Ptr, null, push_front, unlink, mem}
use lmq.Dlist.Seg.{Seg, frame, first, find-first}
use lmq.Dlist.Unlink.{
  push_front-Seg, push_front-frame, unlink_lem, unlink-frame, erase, not-mem-erase, not-mem-null,
  head-Seg,
}
use lmq.Buckets.{Buckets, update, insert, remove, search}

module _ (slot : Ptr → ℕ) where
  -- Each bucket is a list of the records whose key leads there.
  pub record IsTable (t : Buckets) (chains : ℕ → List Ptr) : Type 0 where
    pub chain : (i : ℕ) → Seg t.links null (t.head i) (chains i)
    pub placed : (i : ℕ) (p : Ptr) → mem p (chains i) ≡ true → slot p ≡ i

  -- Along the bucket, the search finds the first record that passes the test.
  pub search-first :
      (test : Ptr → Bool) (fuel : ℕ) {t : Buckets} {chains : ℕ → List Ptr}
      → IsTable t chains
      → (i : ℕ) → length (chains i) < fuel
      → search test fuel t i ≡ some (first test (chains i))
  unfolding search
  search-first test fuel v i f = find-first test fuel (v.chain i) f

  module _ {t : Buckets} {chains : ℕ → List Ptr} (v : IsTable t chains) (p : Ptr) where
    insert_other :
        (j a : ℕ)
        → (slot p == j) ≡ false
        → mem a (chains j) ≡ true
        → (push_front t.links (t.head (slot p)) p).0 a ≡ t.links a
    insert_other j a e i =
        push_front-frame t.links (t.head (slot p)) p a (ground (arith, v.placed j a i)) (
          ground (
            arith,
            v.placed j a i,
            v.placed (slot p) (t.head (slot p)),
            head-Seg (v.chain (slot p)),
            not-mem-null (v.chain j),
          ))

    insert-chain :
        p ≢ null
        → mem p (chains (slot p)) ≡ false
        → (j : ℕ)
        → Seg
            (insert t (slot p) p).links
            null
            ((insert t (slot p) p).head j)
            (update chains (slot p) (p ∷ chains (slot p)) j)
    unfolding insert
    insert-chain ne out j = elim (Bool-cases (slot p == j)) [
      | inl e ↦ rw e (push_front-Seg p (v.chain (slot p)) ne out)
      | inr e ↦ rw e (frame (v.chain j) λ a i. insert_other j a e i)
    ]

    insert-placed :
        (j a : ℕ) → mem a (update chains (slot p) (p ∷ chains (slot p)) j) ≡ true → slot a ≡ j
    insert-placed j a i = ground (arith, v.placed j a, v.placed (slot p) a)

    -- Registering a record that is in no bucket puts it in front of the bucket of its key, and
    -- leaves the other buckets as they are.
    pub insert-IsTable :
        p ≢ null
        → mem p (chains (slot p)) ≡ false
        → IsTable (insert t (slot p) p) (update chains (slot p) (p ∷ chains (slot p)))
    insert-IsTable ne out = record { chain = insert-chain ne out; placed = insert-placed }

  module _ {t : Buckets} {chains : ℕ → List Ptr} (v : IsTable t chains) (i : ℕ) (p : Ptr)
      (held : mem p (chains i) ≡ true) where
    remove_other :
        (j a : ℕ)
        → (i == j) ≡ false
        → mem a (chains j) ≡ true
        → (unlink t.links (t.head i) p).0 a ≡ t.links a
    remove_other j a e m =
        unlink-frame p (v.chain i) held a (ground (arith, not-mem-null (v.chain j)))
          (elim (Bool-cases (mem a (chains i))) [
            | inl both ↦ absurd (ground (arith, v.placed j a m, v.placed i a both))
            | inr out ↦ out
          ])

    remove-chain :
        (j : ℕ)
        → Seg
            (remove t i p).links
            null
            ((remove t i p).head j)
            (update chains i (erase p (chains i)) j)
    unfolding remove
    remove-chain j = elim (Bool-cases (i == j)) [
      | inl e ↦ rw e (unlink_lem p (v.chain i) held)
      | inr e ↦ rw e (frame (v.chain j) λ a m. remove_other j a e m)
    ]

    -- Unregistering a record takes it out of its bucket, and leaves the order of the others and the
    -- other buckets as they are.
    pub remove-IsTable : IsTable (remove t i p) (update chains i (erase p (chains i)))
    remove-IsTable = record {
      chain = remove-chain;
      placed = λ j a m. ground (arith, v.placed j a, v.placed i a, not-mem-erase a p (chains i));
    }
