-- ===== src/Util.antt =====
-- The socket addresses of libsf/sf_util.c. `getaddrinfo`, `getnameinfo`, `getifaddrs` and the reading
-- of /dev/urandom are parameters: what they return.
pub mod Address
pub mod Tests
use Prim.Native.Nat.{compare, Ordering}
use lmq.Prelude.{
  ℕ, zero, suc, ◌+◌, ◌-◌, ◌*◌, ◌/◌, ◌%◌, ◌^◌, Option, none, some, List, [], ◌∷◌, ◌++◌, ◌==◌, ltb,
  take, if◌then◌else◌, same_bytes,
}
use lmq.Pbuf.{Bytes}
use lmq.Session.Address.{SockAddr, inet, inet6, other}

-- `sf_util_random`: what `open` and `read` give
unfoldable pub random : Option (Option ℕ) → ℕ
random none = 0
random (some none) = 0
random (some (some value)) = value % 2 ^ 32

-- `sf_util_sagetport`. `none` is `return -1`.
unfoldable pub sagetport : SockAddr → Option ℕ
sagetport (inet port addr) = some port
sagetport (inet6 port addr) = some port
sagetport (other family) = none

-- `sf_util_sasetport`, whose port is a `uint16_t`
unfoldable pub sasetport : SockAddr → ℕ → SockAddr
sasetport (inet port addr) new = inet (new % 2 ^ 16) addr
sasetport (inet6 port addr) new = inet6 (new % 2 ^ 16) addr
sasetport (other family) new = other family

-- `sf_util_str2sa`, with the address that `getaddrinfo` finds
unfoldable pub str2sa : Option SockAddr → ℕ → Option SockAddr
unfolding sasetport
str2sa none port = none
str2sa (some sa) port = some (sasetport sa port)

-- The sign of `memcmp`
unfoldable pub memcmp : Bytes → Bytes → Ordering
memcmp [] b = Ordering.eq
memcmp (x ∷ xs) [] = Ordering.eq
memcmp (x ∷ xs) (y ∷ ys) =
    let rest = memcmp xs ys in
    elim (compare x y) [
      | Ordering.lt ↦ Ordering.lt
      | Ordering.gt ↦ Ordering.gt
      | Ordering.eq ↦ rest
    ]

-- The first difference that is not zero
abbrev pub or_else : Ordering → Ordering → Ordering
or_else Ordering.lt s = Ordering.lt
or_else Ordering.gt s = Ordering.gt
or_else Ordering.eq s = s

-- A port as the field holds it, read as a number of a machine that stores the low byte first
abbrev pub field : ℕ → ℕ
field port = port / 256 % 256 + (port % 256) * 256

-- `util_compare_sin` and `util_compare_sin6`
unfoldable pub compare_sin : ℕ → Bytes → ℕ → Bytes → Ordering
unfolding memcmp
compare_sin p a q b = or_else (memcmp a b) (compare (field p) (field q))

-- The port and the address that a `sockaddr` has, whatever its family says
abbrev pub port_of : SockAddr → ℕ
port_of (inet port addr) = port
port_of (inet6 port addr) = port
port_of (other family) = 0

abbrev pub addr_of : SockAddr → Bytes
addr_of (inet port addr) = addr
addr_of (inet6 port addr) = addr
addr_of (other family) = []

-- The sign of `sf_util_sacmp`, of two addresses of one family
unfoldable pub sacmp : SockAddr → SockAddr → Ordering
unfolding compare_sin
sacmp (inet p a) b = compare_sin p a (port_of b) (addr_of b)
sacmp (inet6 p a) b = compare_sin p a (port_of b) (addr_of b)
sacmp (other family) b = Ordering.lt

-- A decimal number, its last digit first
abbrev pub digits : ℕ → ℕ → Bytes
digits zero n = []
digits (suc fuel) n =
    let rest = digits fuel (n / 10) in if ltb n 10 then (b'0' + n) ∷ [] else (b'0' + n % 10) ∷ rest

abbrev pub reversed_onto : Bytes → Bytes → Bytes
reversed_onto [] out = out
reversed_onto (c ∷ cs) out = reversed_onto cs (c ∷ out)

-- A port has five digits at most.
abbrev pub decimal : ℕ → Bytes
decimal n = reversed_onto (digits 5 n) []

-- What is in the buffer behind `sf_util_sa2str`. Without a port it is the host, and for a family that
-- is not known nothing is written.
unfoldable pub sa2str_host : ℕ → SockAddr → Bytes → Option Bytes
sa2str_host bufmax (inet port addr) host =
    some (take (bufmax - 1) (if port == 0 then host else host ++ (b':' ∷ decimal port)))
sa2str_host bufmax (inet6 port addr) host =
    some (
      take (bufmax - 1) (if port == 0 then host else (b'[' ∷ host) ++ (b']' ∷ b':' ∷ decimal port)))
sa2str_host bufmax (other family) host = none

-- `sf_util_sa2str`, with what `getnameinfo` gives: `none` is `return -1`.
unfoldable pub sa2str : ℕ → SockAddr → Option Bytes → Option (Option Bytes)
unfolding sa2str_host
sa2str bufmax sa none = none
sa2str bufmax sa (some host) = some (sa2str_host bufmax sa host)

-- The loop of `sf_util_ifnametoaddr` over the names and addresses of the interfaces
unfoldable pub find_ifaddr : Bytes → List (Bytes × SockAddr) → Option Bytes
find_ifaddr name [] = none
find_ifaddr name ((n, inet port addr) ∷ rest) =
    let later = find_ifaddr name rest in if same_bytes n name then some addr else later
find_ifaddr name ((n, inet6 port addr) ∷ rest) = find_ifaddr name rest
find_ifaddr name ((n, other family) ∷ rest) = find_ifaddr name rest

-- `sf_util_ifnametoaddr`, with what `getifaddrs` gives
unfoldable pub ifnametoaddr : Option (List (Bytes × SockAddr)) → Bytes → Option Bytes
unfolding find_ifaddr
ifnametoaddr none name = none
ifnametoaddr (some ifs) name = find_ifaddr name ifs
