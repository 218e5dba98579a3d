-- ===== src/Program.antt =====
-- The program leanmqd of lmq_main.c: its arguments, and how it starts.
pub mod Start
pub mod Running
mod Tests
use lmq.Prelude.{ℕ, Bool, true, false, Option, none, some, List, [], ◌∷◌, ◌==◌, if◌then◌else◌}
use lmq.Pbuf.{Bytes}
use lmq.Proto.{ProtoCb}
use lmq.Session.{Sessions}
use lmq.Session.Address.{SockAddr}
use lmq.Util.{str2sa}
use lmq.Socket.Instance.{Instance, Calls, tcp_listen}
use lmq.Main.{init}
use lmq.Log.{Log, log_debug, setmask, openlog}

-- `Debug` and the log
pub record Options : Type 0 where
  pub debug : Bool
  pub log : Log

-- `*argv[i]`, 0 behind the end
abbrev pub first_byte : Bytes → ℕ
first_byte [] = 0
first_byte (c ∷ cs) = c

abbrev pub second_byte : Bytes → ℕ
second_byte [] = 0
second_byte (c ∷ cs) = first_byte cs

-- `parse_args`, of the arguments behind the name of the program. `none` is `exit` in `usage`.
unfoldable pub parse_args : List Bytes → Options → Option Options
unfolding setmask
parse_args [] o = some o
parse_args (arg ∷ args) o =
    let skipped = parse_args args o in
    let debugging = parse_args args (record { debug = true; log = setmask o.log log_debug }) in
    if first_byte arg == b'-' then if second_byte arg == b'd' then debugging else none else skipped

-- `STOMP_PORT`
abbrev pub stomp_port : ℕ
stomp_port = 61613

module _ {ℓ} {S : Type ℓ} (stomp : ProtoCb (Sessions S)) where
  abbrev pub if_listening : Instance S × Bool → Option (Instance S)
  if_listening (w, false) = none
  if_listening (w, true) = some w

  unfoldable pub listening_from : Calls → Option (Instance S) → Option (Instance S)
  unfolding tcp_listen
  listening_from c none = none
  listening_from c (some w) = if_listening (tcp_listen w c (some stomp))

  unfoldable pub init_with :
      Option SockAddr → Bool → Bool → Calls → Instance S → Option (Instance S)
  unfolding listening_from init
  init_with none allocated poll_create c w = none
  init_with (some sa) allocated poll_create c w = listening_from c (init allocated poll_create w)

  -- `init`, with the address that `getaddrinfo` finds. `none` is `return -1`.
  unfoldable pub program_init :
      Option SockAddr → Bool → Bool → Calls → Instance S → Option (Instance S)
  unfolding init_with str2sa
  program_init found allocated poll_create c w =
      init_with (str2sa found stomp_port) allocated poll_create c w

  abbrev pub started : Option (Instance S) → Option Options → Option (Options × Instance S)
  started w none = none
  started none (some o) = none
  started (some w) (some o) = some (o, w)

  abbrev pub daemon : Bool → Options → Option Options
  unfolding openlog
  daemon forked o =
      if o.debug then some o else if forked then some (record o { log = openlog o.log }) else none

  abbrev pub daemon_of : Bool → Option Options → Option Options
  unfolding daemon
  daemon_of forked none = none
  daemon_of forked (some o) = daemon forked o

  -- `main` up to the loop of `sf_main`: `none` is an exit, whose status is always a failure.
  unfoldable pub main :
      List Bytes
      → Options
      → Bool
      → Option SockAddr
      → Bool
      → Bool
      → Calls
      → Instance S
      → Option (Options × Instance S)
  unfolding parse_args daemon_of program_init
  main args o forked found allocated poll_create c w =
      started (program_init found allocated poll_create c w) (daemon_of forked (parse_args args o))
