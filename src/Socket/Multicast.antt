-- ===== src/Socket/Multicast.antt =====
-- The options for multicast in libsf/sf_socket.c. `setsockopt` and `if_nametoindex` are parameters.
use lmq.Prelude.{ℕ, Bool, false, Option, none, some, List}
use lmq.Pbuf.{Bytes}
use lmq.Session.Address.{SockAddr}
use lmq.Util.{addr_of, ifnametoaddr}

abbrev pub index_of : (Bytes → ℕ) → Option Bytes → ℕ
index_of if_nametoindex none = 0
index_of if_nametoindex (some ifname) = if_nametoindex ifname

-- `sf_socket_udp_mcast_join`, for an IPv4 address, with the group and the interface that
-- `setsockopt` gets
unfoldable pub mcast_join : (Bytes → ℕ → Bool) → (Bytes → ℕ) → SockAddr → Option Bytes → Bool
mcast_join setsockopt if_nametoindex addr ifname =
    setsockopt (addr_of addr) (index_of if_nametoindex ifname)

abbrev pub sent_from : (Bytes → Bool) → Option Bytes → Bool
sent_from setsockopt none = false
sent_from setsockopt (some addr) = setsockopt addr

-- `sf_socket_udp_mcast_sendif`, with what `getifaddrs` gives
unfoldable pub mcast_sendif : (Bytes → Bool) → Option (List (Bytes × SockAddr)) → Bytes → Bool
unfolding ifnametoaddr
mcast_sendif setsockopt ifs ifname = sent_from setsockopt (ifnametoaddr ifs ifname)
