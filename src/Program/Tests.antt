-- ===== src/Program/Tests.antt =====
-- Runs of lmq_main.c and of the back ends, and the theorems on them at concrete states.
use lmq.Prelude.{ℕ, ◌≡◌, refl, true, false, Option, none, some, [], ◌∷◌}
use lmq.Proto.{ProtoCb}
use lmq.Session.{Sessions}
use lmq.Stomp.Text.{codes}
use lmq.Util.Tests.{here}
use lmq.Socket.Instance.{Instance}
use lmq.Socket.Sound.{Keeps}
use lmq.Main.Loop.{Turn, main_loop}
use lmq.Program.Running.{main_loop-IsSound}
use lmq.Main.Tests.{blank, calls, unused-FreshFd, readable, events_fair}
use lmq.Log.{at_start, log_debug}
use lmq.Program.{Options, parse_args, program_init}
use lmq.Program.Start.{Starts, program_init-Starts}

abbrev protocol : ProtoCb (Sessions ℕ)
protocol = record {
  session_id = none;
  session_start = none;
  session_end = none;
  msg_estlen = none;
  msg_length = none;
  msg_input = none;
  msg_output = none;
  timeout = none;
}

program_init-Starts_example :
    Starts protocol calls blank
      (some here)
      true
      true
      (program_init protocol (some here) true true calls blank)
program_init-Starts_example =
    program_init-Starts protocol calls blank unused-FreshFd refl refl (some here) true true

abbrev options : Options
options = record { debug = false; log = at_start }

parse_args_debug :
    parse_args (codes "x" ∷ codes "-d" ∷ []) options
    ≡ some (record { debug = true; log = record { flags = 0; mask = log_debug } })
unfolding parse_args
parse_args_debug = refl

-- The option that the usage message names is not known.
parse_args_config : parse_args (codes "-c" ∷ codes "file" ∷ []) options ≡ none
unfolding parse_args
parse_args_config = refl

abbrev or_blank : Option (Instance ℕ) → Instance ℕ
or_blank none = blank
or_blank (some w) = w

abbrev listening_now : Instance ℕ
listening_now = or_blank (program_init protocol (some here) true true calls blank)

listening_now_lem : program_init protocol (some here) true true calls blank ≡ some listening_now
unfolding program_init
listening_now_lem = refl

-- A round in which two connections come.
abbrev busy : Turn
busy = record {
  now = record { sec = 1; usec = 0 };
  events = λ ms. some (readable ∷ []);
  later = record { sec = 2; usec = 0 };
}

main_loop-IsSound_example : Keeps 0 (main_loop 5 (busy ∷ busy ∷ []) listening_now)
main_loop-IsSound_example =
    main_loop-IsSound 5 protocol calls blank (some here) true true listening_now (busy ∷ busy ∷ [])
      unused-FreshFd refl refl listening_now_lem
      ((λ ms l e. events_fair l e), ((λ ms l e. events_fair l e), tt))
