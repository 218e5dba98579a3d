-- ===== src/Timer/Listed.antt =====
-- What the registration of a timer in libsf/sf_timer.c does to the list.
use lmq.Prelude.{ℕ, zero, suc, ◌<◌, ◌≡◌, ◌≢◌, refl, true, false, some, List, ◌==◌, arith, length}
use lmq.Dlist.{Ptr, null, mem}
use lmq.Dlist.Seg.{Seg, nil, cons}
use lmq.Timer.{Timers, earlier, later, chain_behind, register}

chain_behind_none :
    (fuel : ℕ) (ti : Timers) (timer : Ptr) {prev p : Ptr} {ts : List Ptr}
    → Seg ti.links prev p ts
    → ((t : Ptr) → mem t ts ≡ true → later (ti.time timer) (ti.time t) ≡ false)
    → length ts < fuel
    → chain_behind fuel ti p timer ≡ some ti
unfolding chain_behind
chain_behind_none zero ti timer s not_later f = absurd (omega arith)
chain_behind_none (suc fuel) ti timer nil not_later f = refl
chain_behind_none (suc fuel) ti timer (cons {p = p} ne back out s) not_later f = ground (
  arith,
  not_later p,
  chain_behind_none fuel ti timer s (λ t m. not_later t (ground (arith, m))) (omega arith),
)

-- A timer for a time that is neither before that of the head nor behind that of any timer of the
-- list, such as the time of every timer of a list of one, is not registered at all.
pub register-lost :
    (fuel : ℕ) (ti : Timers) (timer : Ptr) (ts : List Ptr)
    → Seg ti.links null ti.head ts
    → ti.head ≢ null
    → mem ti.tail ts ≡ true
    → earlier (ti.time timer) (ti.time ti.head) ≡ false
    → ((t : Ptr) → mem t ts ≡ true → later (ti.time timer) (ti.time t) ≡ false)
    → length ts < fuel
    → register fuel ti timer ≡ some ti
unfolding register
register-lost fuel ti timer ts s ne tail before not_later f =
    let h : (ti.head == null) ≡ false = ground arith in
    rw h (rw before (rw (not_later ti.tail tail) (chain_behind_none fuel ti timer s not_later f)))
