-- ===== src/Util/Address.antt =====
-- That the two comparisons of socket addresses, in libsf/sf_util.c and libsf/sf_session.c, agree.
use Prim.Native.Nat.{compare, Ordering}
use lmq.Prelude.{ℕ, ◌<◌, ◌^◌, ◌≡◌, ◌↔◌, true, ◌&&◌, ◌==◌, [], ◌∷◌, arith, length, same_bytes}
use lmq.Pbuf.{Bytes}
use lmq.Session.Address.{SockAddr, inet, inet6, other, same_sockaddr}
use lmq.Util.{memcmp, or_else, field, compare_sin, sacmp}

-- Addresses of one family, whose ports fit and whose bytes are as many.
pub data Comparable : SockAddr → SockAddr → Type 0 where
  both_inet :
      {a b : Bytes} (p q : ℕ)
      → p < 2 ^ 16
      → q < 2 ^ 16
      → length a ≡ length b
      → Comparable (inet p a) (inet q b)
  both_inet6 :
      {a b : Bytes} (p q : ℕ)
      → p < 2 ^ 16
      → q < 2 ^ 16
      → length a ≡ length b
      → Comparable (inet6 p a) (inet6 q b)
  both_other : (f g : ℕ) → Comparable (other f) (other g)

memcmp_iff :
    (a b : Bytes) → length a ≡ length b → (memcmp a b ≡ Ordering.eq) ↔ (same_bytes a b ≡ true)
unfolding memcmp
memcmp_iff [] [] e = ground arith
memcmp_iff [] (y ∷ ys) e = absurd (ground arith)
memcmp_iff (x ∷ xs) [] e = absurd (ground arith)
memcmp_iff (x ∷ xs) (y ∷ ys) e = ground (arith, memcmp_iff xs ys)

field-injective : (p q : ℕ) → p < 2 ^ 16 → q < 2 ^ 16 → field p ≡ field q → p ≡ q
field-injective p q lp lq e = omega arith

or_else_iff :
    (r s : Ordering) → (or_else r s ≡ Ordering.eq) ↔ ((r ≡ Ordering.eq) × (s ≡ Ordering.eq))
or_else_iff Ordering.lt s = ground arith
or_else_iff Ordering.gt s = ground arith
or_else_iff Ordering.eq s = ground arith

compare_sin_iff :
    (p q : ℕ) (a b : Bytes)
    → p < 2 ^ 16
    → q < 2 ^ 16
    → length a ≡ length b
    → (compare_sin p a q b ≡ Ordering.eq) ↔ (((p == q) && same_bytes a b) ≡ true)
unfolding compare_sin
compare_sin_iff p q a b lp lq e =
    let bytes = memcmp_iff a b e in
    let both = or_else_iff (memcmp a b) (compare (field p) (field q)) in
    ground (arith, bytes, both, field-injective p q lp lq)

-- `sf_util_sacmp` finds no difference between two addresses exactly if `session_compare_sockaddr`
-- finds none, for addresses of one family whose ports fit into 16 bits and whose bytes are as many.
pub sacmp_iff :
    (a b : SockAddr) → Comparable a b → (sacmp a b ≡ Ordering.eq) ↔ (same_sockaddr a b ≡ true)
unfolding sacmp same_sockaddr
sacmp_iff a b (both_inet p q lp lq e) = compare_sin_iff p q _ _ lp lq e
sacmp_iff a b (both_inet6 p q lp lq e) = compare_sin_iff p q _ _ lp lq e
sacmp_iff a b (both_other f g) = ground arith
