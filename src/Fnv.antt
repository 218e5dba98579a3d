-- ===== src/Fnv.antt =====
-- The 32-bit FNV-1a hash of mqcore/binding_hash.c and of libsf/sf_session.c.
use lmq.Prelude.{ℕ, ◌*◌, ◌%◌, ◌^◌, ◌<◌, ◌≡◌, refl, arith, [], ◌∷◌, ◌++◌, bit_xor}
use lmq.Pbuf.{Bytes}

abbrev pub basis : ℕ
basis = 2166136261

-- `hash ^= c; hash *= 16777619;`, in `unsigned` arithmetic
unfoldable pub fnv_step : ℕ → ℕ → ℕ
fnv_step hash c = bit_xor hash c * 16777619 % 2 ^ 32

-- `session_calc_hash_buf`
unfoldable pub fnv : ℕ → Bytes → ℕ
unfolding fnv_step
fnv hash [] = hash
fnv hash (c ∷ cs) = fnv (fnv_step hash c) cs

-- Hashing in pieces is hashing the whole.
pub fnv-append : (hash : ℕ) (xs ys : Bytes) → fnv hash (xs ++ ys) ≡ fnv (fnv hash xs) ys
unfolding fnv
fnv-append hash [] ys = refl
fnv-append hash (x ∷ xs) ys = fnv-append (fnv_step hash x) xs ys

pub fnv-lt : (hash : ℕ) (xs : Bytes) → hash < 2 ^ 32 → fnv hash xs < 2 ^ 32
unfolding fnv
fnv-lt hash [] h = h
fnv-lt hash (x ∷ xs) h = fnv-lt (fnv_step hash x) xs (unfold fnv_step in omega arith)
