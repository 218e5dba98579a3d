-- ===== src/Pbuf/Resize.antt =====
-- `sf_pbuf_init` and `sf_pbuf_resize` of sf_pbuf.c: the outcomes of an allocation.
use lmq.Prelude.{
  ℕ, ◌+◌, ◌-◌, ◌≤◌, ◌<◌, ◌≡◌, refl, sym, ap, ◌∙◌, inl, inr, Option, none, some, [], ltb, ltb→lt,
  arith, Bool-cases, length, take, drop, take-append_exact,
}
use lmq.Pbuf.{
  Pbuf, Bytes, Ret, ok, failed, fault, write_at, contents, data_len, filled, init_with_data, init,
  resize, sethdr,
}
use lmq.Pbuf.Inv.{IsValid, length-contents, length-write_at}

-- What `malloc(n)` returned: NULL, or a block of `n` bytes, whatever they are.
abbrev pub Allocates : Option Bytes → ℕ → Type 0
Allocates none n = Unit {0}
Allocates (some b) n = length b ≡ n

-- The ways in which an allocation of `n` bytes that are to hold `bytes` can end.
abbrev pub Inits : Option Bytes → ℕ → Bytes → Ret Pbuf → Type 0
Inits block n bytes (ok q) =
    IsValid q × (q.len ≡ n) × (q.head ≡ 0) × (contents q ≡ bytes) × (length bytes ≤ n)
Inits block n bytes failed = (block ≡ none) × (0 < n)
Inits block n bytes fault = n < length bytes

filled-Inits :
    (b : Bytes) (n : ℕ) (bytes : Bytes) (block : Option Bytes)
    → length b ≡ n
    → length bytes ≤ n
    → Inits block n bytes (ok (filled b n bytes))
unfolding filled sethdr contents write_at
filled-Inits b n bytes block e h = (
  record { block = length-write_at b 0 bytes (omega arith) ∙ e; ordered = omega arith; within = h },
  refl,
  refl,
  take-append_exact (length bytes - 0) bytes (drop (0 + length bytes) b) (omega arith),
  h,
)

init_with_data-Inits :
    (block : Option Bytes) (n : ℕ) (bytes : Bytes)
    → Allocates block n
    → Inits block n bytes (init_with_data block n bytes)
unfolding init_with_data
init_with_data-Inits none n bytes a = elim (Bool-cases (ltb 0 n)) [
  | inl pos ↦ rw pos (refl, ltb→lt 0 n pos)
  | inr none_asked ↦ rw none_asked (elim (Bool-cases (ltb 0 (length bytes))) [
    | inl some_bytes ↦ rw some_bytes (ground arith)
    | inr empty ↦ rw empty (filled-Inits [] n bytes none (ground arith) (ground arith))
  ])
]
init_with_data-Inits (some b) n bytes a = elim (Bool-cases (ltb 0 n)) [
  | inl pos ↦ rw pos (elim (Bool-cases (ltb n (length bytes))) [
    | inl over ↦ rw over (ltb→lt n (length bytes) over)
    | inr fits ↦ rw fits (filled-Inits b n bytes (some b) a (ground arith))
  ])
  | inr none_asked ↦ rw none_asked (elim (Bool-cases (ltb 0 (length bytes))) [
    | inl some_bytes ↦ rw some_bytes (ground arith)
    | inr empty ↦ rw empty (filled-Inits [] n bytes (some b) (ground arith) (ground arith))
  ])
]

-- `sf_pbuf_init` of `n` bytes, with what `malloc` returned: it fails only for want of memory, never
-- writes outside the block, and gives a valid empty buffer of `n` bytes.
pub init_lem : (block : Option Bytes) (n : ℕ) → Allocates block n → Inits block n [] (init block n)
unfolding init
init_lem block n a = init_with_data-Inits block n [] a

abbrev pub Resizes : Option Bytes → Pbuf → ℕ → Ret Pbuf → Type 0
Resizes block p n (ok q) =
    IsValid q × (q.len ≡ n) × (q.head ≡ 0) × (contents q ≡ contents p) × (data_len p ≤ n)
Resizes block p n failed = (block ≡ none) × (0 < n)
Resizes block p n fault = n < data_len p

Inits-Resizes :
    (block : Option Bytes) (p : Pbuf) (n : ℕ) (r : Ret Pbuf)
    → length (contents p) ≡ data_len p
    → Inits block n (contents p) r
    → Resizes block p n r
Inits-Resizes block p n (ok q) e i = (i.0, i.1, i.2, i.3, omega (arith, i.4))
Inits-Resizes block p n failed e i = i
Inits-Resizes block p n fault e i = omega arith

copied : (p : Pbuf) → p.head ≡ 0 → contents p ≡ take (data_len p) p.buf
unfolding contents
copied p h = ap (λ k. take (data_len p) (drop k p.buf)) h

resize_at_start :
    (block : Option Bytes) (p : Pbuf) (n : ℕ)
    → p.head ≡ 0
    → resize block p n ≡ init_with_data block n (contents p)
unfolding resize
resize_at_start block p n h = ap (init_with_data block n) (sym (copied p h))

-- `sf_pbuf_resize` of a valid buffer whose data starts at the block's start, with what `malloc`
-- returned: it fails only for want of memory, gives a valid buffer of the new size with the same
-- data if that fits, and otherwise copies the data past the end of the new block.
pub resize_lem :
    (block : Option Bytes) (p : Pbuf) (n : ℕ)
    → IsValid p
    → p.head ≡ 0
    → Allocates block n
    → Resizes block p n (resize block p n)
resize_lem block p n v h a =
    rw (resize_at_start block p n h) (
      Inits-Resizes block p n _ (length-contents p v) (init_with_data-Inits block n (contents p) a))
