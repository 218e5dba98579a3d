-- ===== src/Dlist/Seg.antt =====
-- The records on a bucket of binding_hash.c and sf_session.c, in order.
use lmq.Prelude.{
  ℕ, zero, suc, ◌<◌, ◌≡◌, ◌≢◌, refl, ap, ◌∙◌, Bool, true, false, some, List, [], ◌∷◌, if◌then◌else◌,
  arith, length,
}
use lmq.Dlist.{Ptr, null, Links, Heap, find, mem}

-- From `p`, behind `prev`, the links lead through the distinct records `ps` to NULL and back.
pub data Seg (h : Heap) : Ptr → Ptr → List Ptr → Type 0 where
  nil : {prev : Ptr} → Seg h prev null []
  cons :
      {prev p : Ptr} {ps : List Ptr}
      → p ≢ null
      → (h p).prev ≡ prev
      → mem p ps ≡ false
      → Seg h p (h p).next ps
      → Seg h prev p (p ∷ ps)

-- A bucket holds its records whatever happens to the links of others.
pub frame :
    {h g : Heap} {prev p : Ptr} {ps : List Ptr}
    → Seg h prev p ps
    → ((a : Ptr) → mem a ps ≡ true → g a ≡ h a)
    → Seg g prev p ps
frame nil same = nil
frame {h} {g} {prev} {p} (cons {ps = ps} ne back out s) same =
    let e : g p ≡ h p = same p (ground arith) in
    cons ne (ap (λ (l : Links). l.prev) e ∙ back) out (rw e (frame s λ a i. same a (ground arith)))

-- The first of the records that passes the test, or NULL.
unfoldable pub first : (Ptr → Bool) → List Ptr → Ptr
first test [] = null
first test (p ∷ ps) = if test p then p else first test ps

-- It passes the test, unless it is NULL.
pub first-holds :
    (test : Ptr → Bool) (ps : List Ptr) → first test ps ≢ null → test (first test ps) ≡ true
unfolding first
first-holds test [] ne = absurd (ne refl)
first-holds test (p ∷ ps) ne = ground (arith, first-holds test ps)

-- The search finds the first record that passes the test, and its fuel is enough if there are
-- fewer records.
pub find-first :
    (test : Ptr → Bool) (fuel : ℕ) {h : Heap} {prev p : Ptr} {ps : List Ptr}
    → Seg h prev p ps
    → length ps < fuel
    → find test fuel h p ≡ some (first test ps)
unfolding find first
find-first test zero s f = absurd (omega arith)
find-first test (suc fuel) nil f = refl
find-first test (suc fuel) {h} (cons {p = p} ne back out s) f =
    ground (arith, find-first test fuel s)
