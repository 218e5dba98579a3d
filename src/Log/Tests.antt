-- ===== src/Log/Tests.antt =====
-- Tests of the log of libsf/sf_plog.c.
use lmq.Prelude.{◌≡◌, refl, List, [], ◌∷◌}
use lmq.Stomp.Text.{codes}
use lmq.Log.{Moment, Written, at_start, log_err, log_info, log_debug, hex, print, plog}
use lmq.Log.Syslog.{Call, say, fail, set_mask, set_flag, let_through}

abbrev noon : Moment
noon = record { stamp = codes "2011-01-01 12:00:00"; self = 3735928559 }

abbrev nothing : Written
nothing = record { out = []; sent = [] }

print_run :
    print noon log_err (codes "sf_init() failed")
    ≡ codes "2011-01-01 12:00:00 0xdeadbeef [ERR] sf_init() failed\n"
unfolding print hex
print_run = refl

plog_masked : plog at_start noon log_debug (codes "x") nothing ≡ nothing
unfolding plog
plog_masked = refl

abbrev calls : List Call
calls =
    say noon log_debug (codes "a")
    ∷ fail noon log_err (codes "socket") (codes "No such file")
    ∷ set_mask log_debug
    ∷ set_flag 2
    ∷ say noon log_debug (codes "b")
    ∷ []

let_through_run :
    let_through calls log_info
    ≡ (log_err, codes "socket: No such file") ∷ (log_debug, codes "b") ∷ []
unfolding let_through
let_through_run = refl
