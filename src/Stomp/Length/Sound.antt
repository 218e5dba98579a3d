-- ===== src/Stomp/Length/Sound.antt =====
-- What the answers of `stomp_msg_length` of stomp_proto.c mean for any input.
use lmq.Prelude.{
  sym, ℕ, zero, suc, ◌+◌, ◌-◌, ◌≤◌, ◌<◌, ◌≡◌, ◌≢◌, refl, inl, inr, [], ◌∷◌, leb, ◌==◌, Bool-cases,
  arith, get_or,
}
use lmq.Prelude.Int.{ℤ, pos, negsuc}
use lmq.Pbuf.{Bytes, Ret, ok, failed, fault}
use lmq.Stomp.Length.{msg_estimlen, scan_nul, ends_at, length_from, msg_length}

-- The first NUL among `len` bytes is the one before `n`, in a count from `i`.
abbrev Scans : ℕ → ℕ → Bytes → Ret ℕ → Type 0
Scans len i p (ok n) =
    (i < n)
    × (n ≤ i + len)
    × (get_or p (n - i - 1) 0 ≡ 0)
    × ((j : ℕ) → j < n - i - 1 → get_or p j 0 ≢ 0)
Scans len i p failed = (j : ℕ) → j < len → get_or p j 0 ≢ 0
Scans len i p fault = ⊥

Scans-cons :
    (len i c : ℕ) (p : Bytes) (r : Ret ℕ)
    → c ≢ 0
    → Scans len (i + 1) p r
    → Scans (suc len) i (c ∷ p) r
Scans-cons len i c p (ok n) h (a, b, d, f) = (
  omega arith,
  omega arith,
  (let e : n - i - 1 ≡ suc (n - (i + 1) - 1) = omega arith in rw e d),
  elim [ zero ↦ λ k. h | suc j ↦ λ k. f j (omega arith) ],
)
Scans-cons len i c p failed h f = elim [ zero ↦ λ k. h | suc j ↦ λ k. f j (omega arith) ]
Scans-cons len i c p fault h r = r

Scans-here : (len i : ℕ) (p : Bytes) → get_or p 0 0 ≡ 0 → Scans (suc len) i p (ok (i + 1))
Scans-here len i p e = (
  omega arith,
  omega arith,
  (let z : i + 1 - i - 1 ≡ 0 = omega arith in rw z e),
  λ j k. absurd (omega arith),
)

scan_nul-Scans : (len i : ℕ) (p : Bytes) → Scans len i p (scan_nul len i p)
unfolding scan_nul
scan_nul-Scans zero i p = λ j k. absurd (omega arith)
scan_nul-Scans (suc len) i [] = Scans-here len i [] refl
scan_nul-Scans (suc len) i (c ∷ p) = elim (Bool-cases (c == 0)) [
  | inl e ↦ rw e (Scans-here len i (c ∷ p) (ground arith))
  | inr e ↦ rw e (Scans-cons len i c p _ (ground arith) (scan_nul-Scans len (i + 1) p))
]

-- Whether the estimate is a positive length.
abbrev pub Positive : Ret ℤ → ℕ → Type 0
Positive (ok (pos (suc n))) k = k ≡ suc n
Positive _ k = ⊥

-- The length that is given: within the bytes received, and the message's last byte is a NUL. It is
-- the estimate where that is positive, and else the place of the first NUL.
abbrev pub Measures : Bytes → ℕ → Ret ℤ → Ret ℕ → Type 0
Measures buf len est fault = est ≡ fault
Measures buf len est failed =
    ((n : ℕ) → Positive est n → n ≤ len → get_or buf (n - 1) 0 ≢ 0)
    × (((n : ℕ) → ¬ (Positive est n)) → (j : ℕ) → j < len → get_or buf j 0 ≢ 0)
Measures buf len est (ok n) =
    (0 < n)
    × (n ≤ len)
    × (get_or buf (n - 1) 0 ≡ 0)
    × ((k : ℕ) → Positive est k → n ≡ k)
    × (((k : ℕ) → ¬ (Positive est k)) → (j : ℕ) → j < n - 1 → get_or buf j 0 ≢ 0)

scan-Measures :
    (buf : Bytes) (len : ℕ) (est : Ret ℤ) (r : Ret ℕ)
    → ((n : ℕ) → ¬ (Positive est n))
    → Scans len 0 buf r
    → Measures buf len est r
scan-Measures buf len est (ok n) never (a, b, d, f) =
    let e : n - 0 - 1 ≡ n - 1 = omega arith in
    (a, omega arith, rw e at d, (λ k y. absurd (never k y)), λ _ j k. f j (omega arith))
scan-Measures buf len est failed never s = (λ n y. absurd (never n y), λ _. s)
scan-Measures buf len est fault never s = absurd s

module _ (buf : Bytes) (len : ℕ) where
  ends_at-Measures : (n : ℕ) → Measures buf len (ok (pos (suc n))) (ends_at buf len (suc n))
  unfolding ends_at
  ends_at-Measures n = elim (Bool-cases (leb (suc n) len)) [
    | inr short ↦
        rw short ((λ k e h. absurd (ground arith)), (λ never. absurd (never (suc n) refl)))
    | inl enough ↦ rw enough (elim (Bool-cases (get_or buf (suc n - 1) 0 == 0)) [
      | inr other ↦
          rw other ((λ k e h. rw e (ground arith)), (λ never. absurd (never (suc n) refl)))
      | inl nul ↦ rw nul (
        omega arith,
        ground arith,
        ground arith,
        (λ k e. sym e),
        λ never. absurd (never (suc n) refl),
      )
    ])
  ]

  length_from-Measures : (est : Ret ℤ) → Measures buf len est (length_from buf len est)
  unfolding length_from
  length_from-Measures fault = refl
  length_from-Measures failed = scan-Measures buf len failed _ (λ n h. h) (scan_nul-Scans len 0 buf)
  length_from-Measures (ok (negsuc n)) =
      scan-Measures buf len (ok (negsuc n)) _ (λ k h. h) (scan_nul-Scans len 0 buf)
  length_from-Measures (ok (pos zero)) =
      scan-Measures buf len (ok (pos zero)) _ (λ k h. h) (scan_nul-Scans len 0 buf)
  length_from-Measures (ok (pos (suc n))) = ends_at-Measures n

-- For any input of `len` bytes, a length that `stomp_msg_length` gives is positive, at most `len`,
-- and that of a text whose last byte is NUL. It is the estimate where that is a positive number, and
-- the place of the first NUL where it is not. It gives none only if the estimate is positive and no NUL stands there within the
-- input, or it is not and the input has no NUL.
pub msg_length-Measures :
    (buf : Bytes) (len : ℕ) → Measures buf len (msg_estimlen buf len) (msg_length buf len)
unfolding msg_length
msg_length-Measures buf len = length_from-Measures buf len (msg_estimlen buf len)
