-- ===== src/Timer/Removing.antt =====
-- The list of the timers of libsf/sf_timer.c, and how a timer is taken out of it.
use lmq.Prelude.{
  ℕ, ◌<◌, ◌≡◌, ◌≢◌, refl, ap, inl, inr, true, false, some, List, [], ◌∷◌, not, ◌==◌, Bool-cases,
  arith, length,
}
use lmq.Dlist.{Ptr, null, Heap, mem, unlink, unlinked}
use lmq.Dlist.Seg.{Seg, first, find-first}
use lmq.Dlist.Unlink.{erase, unlink_lem, not-mem-null, alone}
use lmq.Timer.{Timers, unregister, isregd, cancel}
use lmq.Timer.Chain.{last, last-erase}

-- The list leads through these timers, each of them once, forwards and backwards, from its head to its
-- tail.
pub record IsListed (ti : Timers) (ts : List Ptr) : Type 0 where
  pub chain : Seg ti.links null ti.head ts
  pub ends : ti.tail ≡ last null ts

unlinked-prev_self :
    (h : Heap) (p : Ptr) → (h p).prev ≢ p → (h p).next ≢ p → (unlinked h p p).prev ≡ (h p).prev
unfolding unlinked
unlinked-prev_self h p np nn = ground arith

erase_self : (p : Ptr) (ps : List Ptr) → mem p ps ≡ false → erase p ps ≡ ps
unfolding erase
erase_self p [] out = refl
erase_self p (x ∷ xs) out = ground (arith, erase_self p xs)

module _ (timer : Ptr) where
  first_self :
      (ps : List Ptr)
      → mem null ps ≡ false
      → not (first (λ t. t == timer) ps == null) ≡ mem timer ps
  unfolding first
  first_self [] out = refl
  first_self (p ∷ ps) out = ground (arith, first_self ps)

module _ {ti : Timers} {ts : List Ptr} (timer : Ptr) (l : IsListed ti ts) where
  pub unregister-IsListed : mem timer ts ≡ true → IsListed (unregister ti timer) (erase timer ts)
  unfolding unregister unlink
  unregister-IsListed i =
      let self = alone timer l.chain i in
      let back = unlinked-prev_self ti.links timer self.1 self.0 in
      let moved = last-erase timer l.chain i in
      record { chain = unlink_lem timer l.chain i; ends = ground (arith, l.ends, back, moved) }

  pub isregd_lem : (fuel : ℕ) → length ts < fuel → isregd fuel ti timer ≡ some (mem timer ts)
  unfolding isregd
  isregd_lem fuel f =
      rw (find-first (λ t. t == timer) fuel l.chain f)
        (ap some (first_self timer ts (not-mem-null l.chain)))

  pub cancel_absent :
      (fuel : ℕ) → length ts < fuel → mem timer ts ≡ false → cancel fuel ti timer ≡ some ti
  unfolding cancel lmq.Timer.unregister_if
  cancel_absent fuel f out = rw (isregd_lem fuel f) (rw out refl)

  -- With enough fuel, `sf_timer_cancel` takes a timer out of the list, if it is there.
  pub cancel-IsListed :
      (fuel : ℕ)
      → length ts < fuel
      → (ti' : Timers) × (cancel fuel ti timer ≡ some ti')
        × (ti'.time ≡ ti.time)
        × (ti'.func ≡ ti.func)
        × IsListed ti' (erase timer ts)
  unfolding cancel lmq.Timer.unregister_if
  cancel-IsListed fuel f = elim (Bool-cases (mem timer ts)) [
    | inl i ↦
        (unregister ti timer, rw (isregd_lem fuel f) (rw i refl), refl, refl, unregister-IsListed i)
    | inr i ↦ (ti, cancel_absent fuel f i, refl, refl, rw (erase_self timer ts i) l)
  ]
