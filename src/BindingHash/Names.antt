-- ===== src/BindingHash/Names.antt =====
-- What the table of binding_hash.c promises: a binding is found by its name until it is taken out.
use lmq.Prelude.{
  ℕ, ◌+◌, ap, ◌∙◌, Bool-cases, inl, inr, ◌<◌, ◌≡◌, ◌≢◌, refl, Bool, true, false, some, List, ◌∷◌,
  ◌==◌, arith, length, same_bytes, same_bytes→≡, same_bytes_refl,
}
use lmq.Pbuf.{Bytes}
use lmq.Dlist.{Ptr, null, mem}
use lmq.Dlist.Seg.{first-holds, first}
use lmq.Dlist.Unlink.{erase, mem-first}
use lmq.Buckets.{Buckets, update}
use lmq.Buckets.Table.{IsTable, search-first, insert-IsTable, remove-IsTable}
use lmq.BindingHash.{slot, register, lookup, unregister, unregistered, remove_found}

-- The first of these bindings that has the name, or NULL.
abbrev pub named : (Ptr → Bytes) → Bytes → List Ptr → Ptr
named name_of name = first (λ p. same_bytes (name_of p) name)

first_found :
    (test : Ptr → Bool) (p : Ptr) (ps : List Ptr) → test p ≡ true → first test (p ∷ ps) ≡ p
unfolding first
first_found test p ps e = rw e refl

module _ (name_of : Ptr → Bytes) {t : Buckets} {chains : ℕ → List Ptr}
    (v : IsTable (λ p. slot (name_of p)) t chains) where
  -- If a bucket has fewer bindings than there is fuel, then the lookup finds the first binding with
  -- that name in the bucket of the name, and a binding that it finds has that name.
  pub lookup-named :
      (fuel : ℕ) (name : Bytes)
      → length (chains (slot name)) < fuel
      → (lookup name_of fuel t name ≡ some (named name_of name (chains (slot name))))
        × (named name_of name (chains (slot name)) ≢ null
            → name_of (named name_of name (chains (slot name))) ≡ name)
  unfolding lookup
  lookup-named fuel name f = (
    search-first _ (λ p. same_bytes (name_of p) name) fuel v (slot name) f,
    λ ne. same_bytes→≡ _ name (first-holds (λ p. same_bytes (name_of p) name) _ ne),
  )

  -- A binding that is registered, with a name that no binding before had or had, is found by it.
  pub register-lookup :
      (fuel : ℕ) (bi : Ptr)
      → bi ≢ null
      → mem bi (chains (slot (name_of bi))) ≡ false
      → length (chains (slot (name_of bi))) + 1 < fuel
      → IsTable
          (λ p. slot (name_of p))
          (register name_of t bi)
          (update chains (slot (name_of bi)) (bi ∷ chains (slot (name_of bi))))
        × (lookup name_of fuel (register name_of t bi) (name_of bi) ≡ some bi)
  unfolding register lookup
  register-lookup fuel bi ne out f =
      let s = slot (name_of bi) in
      let new = insert-IsTable (λ p. slot (name_of p)) v bi ne out in
      let here : (s == s) ≡ true = ground arith in
      let test : Ptr → Bool = λ p. same_bytes (name_of p) (name_of bi) in
      let enough : length (update chains s (bi ∷ chains s) s) < fuel = rw here (omega arith) in
      let first_is : first test (update chains s (bi ∷ chains s) s) ≡ bi =
        rw here (first_found test bi (chains s) (same_bytes_refl (name_of bi))) in
      (new, search-first _ test fuel new s enough ∙ ap (λ p. some p) first_is)

  -- The table without the binding, or as it was where there is none.
  pub record Erases (i : ℕ) (bi : Ptr) (t' : Buckets) : Type 0 where
    pub absent : bi ≡ null → t' ≡ t
    pub erased :
        bi ≢ null → IsTable (λ p. slot (name_of p)) t' (update chains i (erase bi (chains i)))

  remove_found-Erases :
      (i : ℕ) (bi : Ptr)
      → (bi ≢ null → mem bi (chains i) ≡ true)
      → Erases i bi (remove_found t i bi)
  unfolding remove_found
  remove_found-Erases i bi held = elim (Bool-cases (bi == null)) [
    | inl e ↦ rw e (record { absent = λ z. refl; erased = λ ne. absurd (ground arith) })
    | inr e ↦ rw e (record {
      absent = λ z. absurd (ground arith);
      erased = λ ne. remove-IsTable (λ p. slot (name_of p)) v i bi (held ne);
    })
  ]

  -- Unregistering a name takes the first binding with this name out of its bucket, and changes
  -- nothing if there is none.
  pub unregister-Erases :
      (fuel : ℕ) (name : Bytes)
      → length (chains (slot name)) < fuel
      → (t' : Buckets) × (unregister name_of fuel t name ≡ some t')
        × Erases (slot name) (named name_of name (chains (slot name))) t'
  unfolding unregister unregistered
  unregister-Erases fuel name f =
      let test : Ptr → Bool = λ p. same_bytes (name_of p) name in
      let ps = chains (slot name) in
      (
        remove_found t (slot name) (first test ps),
        ap (λ o. unregistered t (slot name) o) (lookup-named fuel name f).0,
        remove_found-Erases (slot name) (first test ps) (mem-first test ps),
      )
