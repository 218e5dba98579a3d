-- ===== src/MsgQueue/Update.antt =====
-- A queue of msgqueue.c in which one buffer changes.
use lmq.Prelude.{
  ℕ, zero, suc, ◌+◌, ◌-◌, ◌%◌, ◌≤◌, ◌<◌, ◌≡◌, sym, ap, ◌∙◌, inl, inr, true, false, List, [], ◌++◌,
  ◌==◌, if◌then◌else◌, Bool-cases, arith, append-nil, append_assoc, length-set, set,
  get_or-set_self, get_or-set_ne,
}
use lmq.Pbuf.{Pbuf, Bytes}
use lmq.MsgQueue.{MsgQueue, pbuf_at, pbuf_size, pbufs_count}
use lmq.MsgQueue.Rep.{ahead, span, Live, Rep, walk}

abbrev pub update : (ℕ → List Bytes) → ℕ → List Bytes → ℕ → List Bytes
update msgs j ms i = if j == i then ms else msgs i

abbrev pub with_pbuf : MsgQueue → ℕ → Pbuf → MsgQueue
with_pbuf q j p = record q { pbufs = set q.pbufs j p }

module _ (q : MsgQueue) (msgs : ℕ → List Bytes) (v : Rep q msgs) (j : ℕ) (p : Pbuf)
    (ms : List Bytes) (j_in : j < pbufs_count) where
  pub pbuf_at-with_self : pbuf_at (with_pbuf q j p) j ≡ p
  pbuf_at-with_self = get_or-set_self q.pbufs j _ _ (omega (arith, v.count))

  Live-with :
      Live (pbuf_size q) p ms
      → (i : ℕ) → Live (pbuf_size q) (pbuf_at q i) (msgs i)
      → Live (pbuf_size q) (pbuf_at (with_pbuf q j p) i) (update msgs j ms i)
  Live-with l i old = elim (Bool-cases (j == i)) [
    | inl e ↦ let e' : j ≡ i = ground arith in rw (e, ← e', pbuf_at-with_self) l
    | inr e ↦
        rw
          (
            e,
            get_or-set_ne q.pbufs j i p
                (record { len = 0; buf = []; head = 0; tail = 0; owned = false }) (ground arith),
          )
          old
  ]

  -- A buffer in use may be replaced by another one.
  pub Rep-with :
      ahead q j ≤ span q → Live (pbuf_size q) p ms → Rep (with_pbuf q j p) (update msgs j ms)
  Rep-with used l = record {
    count = length-set q.pbufs j p ∙ v.count;
    r_in = v.r_in;
    w_in = v.w_in;
    some_size = v.some_size;
    int_size = v.int_size;
    live = λ i h k. Live-with l i (v.live i h k);
    dead = λ i h k.
        rw
          (get_or-set_ne q.pbufs j i p
            (record { len = 0; buf = []; head = 0; tail = 0; owned = false }) (omega arith))
          (v.dead i h k);
  }

-- A change of a buffer that is not among those walked.
pub walk-update_far :
    (msgs : ℕ → List Bytes) (j : ℕ) (ms : List Bytes) (n i : ℕ)
    → i < pbufs_count
    → j < pbufs_count
    → n < (j + pbufs_count - i) % pbufs_count
    → walk (update msgs j ms) n i ≡ walk msgs n i
unfolding walk
walk-update_far msgs j ms zero i hi hj far = let ne : (j == i) ≡ false = ground arith in rw ne
walk-update_far msgs j ms (suc n) i hi hj far =
    let ne : (j == i) ≡ false = ground arith in
    rw ne (
      ap (◌++◌ (msgs i))
        (walk-update_far msgs j ms n ((i + 1) % pbufs_count) (omega arith) hj (omega arith)))

-- A message behind those of the last buffer walked is behind all others.
pub walk-update_last :
    (msgs : ℕ → List Bytes) (j : ℕ) (new : List Bytes) (n i : ℕ)
    → i < pbufs_count
    → j < pbufs_count
    → n ≡ (j + pbufs_count - i) % pbufs_count
    → walk (update msgs j (msgs j ++ new)) n i ≡ walk msgs n i ++ new
unfolding walk
walk-update_last msgs j new zero i hi hj e = let same : j ≡ i = omega arith in ground arith
walk-update_last msgs j new (suc n) i hi hj e =
    let ne : (j == i) ≡ false = ground arith in
    rw ne (
      ap (◌++◌ (msgs i))
        (walk-update_last msgs j new n ((i + 1) % pbufs_count) (omega arith) hj (omega arith))
      ∙ sym (append_assoc (msgs i) (walk msgs n ((i + 1) % pbufs_count)) new))

-- An empty buffer behind the last one walked adds nothing.
pub walk-extend :
    (msgs : ℕ → List Bytes) (j : ℕ) (n i : ℕ)
    → i < pbufs_count
    → j < pbufs_count
    → suc n ≡ (j + pbufs_count - i) % pbufs_count
    → walk (update msgs j []) (suc n) i ≡ walk msgs n i
unfolding walk
walk-extend msgs j zero i hi hj e =
    let ne : (j == i) ≡ false = ground arith in
    let next : (j == (i + 1) % pbufs_count) ≡ true = ground arith in
    rw (ne, next) (append-nil (msgs i))
walk-extend msgs j (suc n) i hi hj e =
    let ne : (j == i) ≡ false = ground arith in
    rw ne (
      ap (◌++◌ (msgs i))
        (walk-extend msgs j n ((i + 1) % pbufs_count) (omega arith) hj (omega arith)))
