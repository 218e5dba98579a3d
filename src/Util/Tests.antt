-- ===== src/Util/Tests.antt =====
-- Runs of sf_util.c, and its theorem at concrete addresses.
use lmq.Prelude.{◌≡◌, refl, some, [], ◌∷◌}
use lmq.Session.Address.{SockAddr, inet, inet6}
use lmq.Stomp.Text.{codes}
use lmq.Util.{sagetport, sasetport, sa2str, ifnametoaddr}

abbrev pub here : SockAddr
here = inet 61613 (127 ∷ 0 ∷ 0 ∷ 1 ∷ [])

port_run : sagetport (sasetport here 80) ≡ some 80
unfolding sagetport sasetport
port_run = refl

sa2str_run : sa2str 256 here (some (codes "127.0.0.1")) ≡ some (some (codes "127.0.0.1:61613"))
unfolding sa2str
sa2str_run = refl

sa2str_short : sa2str 8 (inet6 80 []) (some (codes "::1")) ≡ some (some (codes "[::1]:8"))
unfolding sa2str
sa2str_short = refl

ifnametoaddr_run :
    ifnametoaddr (some ((codes "lo", inet6 0 []) ∷ (codes "lo", here) ∷ [])) (codes "lo")
    ≡ some (127 ∷ 0 ∷ 0 ∷ 1 ∷ [])
unfolding ifnametoaddr
ifnametoaddr_run = refl
