-- ===== src/Session/Address.antt =====
-- The keys of the sessions in libsf/sf_session.c: socket addresses, their comparison and their hash.
use lmq.Prelude.{
  ℕ, zero, suc, ◌+◌, ◌*◌, ◌/◌, ◌%◌, Bool, false, ◌&&◌, [], ◌∷◌, ◌==◌, ltb, if◌then◌else◌,
  same_bytes,
}
use lmq.Pbuf.{Bytes}
use lmq.Fnv.{basis, fnv}

-- `struct sockaddr_in` and `struct sockaddr_in6`, with the port as it is sent and the bytes of the
-- address; any other family.
pub data SockAddr : Type 0 where
  inet : (port : ℕ) → (addr : Bytes) → SockAddr
  inet6 : (port : ℕ) → (addr : Bytes) → SockAddr
  other : (family : ℕ) → SockAddr

-- `n` as that many bytes, the lowest first
abbrev pub le_bytes : ℕ → ℕ → Bytes
le_bytes zero n = []
le_bytes (suc k) n = (n % 256) ∷ le_bytes k (n / 256)

-- `AF_INET` and `AF_INET6`, which are two bytes in front of the port.
abbrev pub af_inet : ℕ
af_inet = 2

abbrev pub af_inet6 : ℕ
af_inet6 = 10

-- The two bytes of a port in network order
abbrev pub port_bytes : ℕ → Bytes
port_bytes port = (port / 256 % 256) ∷ (port % 256) ∷ []

-- `session_calc_hash_in` and `session_calc_hash_in6`
unfoldable pub calc_hash_in : ℕ → Bytes → ℕ
unfolding fnv
calc_hash_in port addr = fnv (fnv (fnv basis (le_bytes 2 af_inet)) (port_bytes port)) addr

unfoldable pub calc_hash_in6 : ℕ → Bytes → ℕ
unfolding fnv
calc_hash_in6 port addr = fnv (fnv (fnv basis (le_bytes 2 af_inet6)) (port_bytes port)) addr

-- `session_calc_hash`
unfoldable pub calc_hash : SockAddr → ℕ → ℕ
unfolding calc_hash_in calc_hash_in6 fnv
calc_hash (inet port addr) sid = fnv (calc_hash_in port addr) (le_bytes 8 sid)
calc_hash (inet6 port addr) sid = fnv (calc_hash_in6 port addr) (le_bytes 8 sid)
calc_hash (other family) sid = 0

-- `session_compare_sockaddr(a, b) == 0`: the families are compared first.
unfoldable pub same_sockaddr : SockAddr → SockAddr → Bool
same_sockaddr (inet p a) (inet q b) = (p == q) && same_bytes a b
same_sockaddr (inet p a) (inet6 q b) = false
same_sockaddr (inet p a) (other f) = false
same_sockaddr (inet6 p a) (inet6 q b) = (p == q) && same_bytes a b
same_sockaddr (inet6 p a) (inet q b) = false
same_sockaddr (inet6 p a) (other f) = false
same_sockaddr (other f) b = false

-- The loop of `session_euler_prime` from `i` on, with `rest` rounds to go
unfoldable pub euler_from : ℕ → ℕ → ℕ → ℕ
euler_from n i zero = n
euler_from n i (suc rest) =
    let value = i * i + i + 41 in
    let later = euler_from n (i + 1) rest in if ltb n value then value else later

unfoldable pub euler_prime : ℕ → ℕ
unfolding euler_from
euler_prime n = euler_from n 0 1000
