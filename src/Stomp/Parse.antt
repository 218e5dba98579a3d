-- ===== src/Stomp/Parse.antt =====
-- `stomp_parse` of stomp/stomp_proto.c: the lines of a message and its command.
pub mod Lines
pub mod Frame
pub mod Commands
use lmq.Prelude.{
  ℕ, zero, suc, ◌+◌, ◌-◌, Bool, true, false, not, ◌||◌, ◌&&◌, Option, none, some, List, [], ◌∷◌,
  ◌++◌, ltb, leb, ◌==◌, if◌then◌else◌, length,
}
use lmq.Pbuf.{Bytes}
use lmq.Stomp.Text.{is_eol, is_stop, has_prefix, codes}

abbrev pub headers_max : ℕ
headers_max = 8

abbrev pub header_len_max : ℕ
header_len_max = 80

pub data Code : Type 0 where
  connect disconnect send subscribe unsubscribe : Code

pub data State : Type 0 where
  initial connected : State

pub record Command : Type 0 where
  pub code : Code
  pub str : Bytes
  pub next_state : State

abbrev pub command : Code → Bytes → State → Command
command c s n = record { code = c; str = s; next_state = n }

-- `StompCommands[state]`
abbrev pub commands : State → List Command
commands initial = command connect (codes "CONNECT") connected ∷ []
commands connected =
    command disconnect (codes "DISCONNECT") initial
    ∷ command send (codes "SEND") connected
    ∷ command subscribe (codes "SUBSCRIBE") connected
    ∷ command unsubscribe (codes "UNSUBSCRIBE") connected
    ∷ []

-- The pointers that are not NULL of `sm_hdr`, in order.
pub record Msg : Type 0 where
  pub cmd : Option Command
  pub buf : Bytes
  pub hdr : List Bytes
  pub body : Option Bytes
  pub len : ℕ

-- The loop of `stomp_next_line`, with the bytes left to look at.
unfoldable pub next_line_from : ℕ → Bool → Bytes → Option Bytes
next_line_from zero flag p = none
next_line_from (suc n) flag [] = none
next_line_from (suc n) flag (c ∷ p) =
    if not (is_eol c) && flag then some (c ∷ p) else next_line_from n (is_eol c || flag) p

unfoldable pub next_line : Bytes → ℕ → Option Bytes
unfolding next_line_from
next_line buf buflen = next_line_from buflen false buf

unfoldable pub is_header_from : ℕ → Bytes → Bool
is_header_from zero p = false
is_header_from (suc n) [] = false
is_header_from (suc n) (c ∷ p) =
    if is_stop c then false else if c == b':' then true else is_header_from n p

unfoldable pub is_header : Bytes → Bool
unfolding is_header_from
is_header p = is_header_from header_len_max p

-- The loop of `stomp_parse_lines` from the line `p` on, with the headers so far; the result is the
-- headers and the body. `none` means that the fuel ran out.
unfoldable pub lines_from :
    ℕ → Bytes → ℕ → List Bytes → Option Bytes → Option (List Bytes × Option Bytes)
lines_from zero buf buflen hdr p = none
lines_from (suc fuel) buf buflen hdr none = some (hdr, none)
lines_from (suc fuel) buf buflen hdr (some p) =
    let next = next_line p (buflen - (length buf - length p)) in
    let room = ltb (length hdr) headers_max in
    let rest = lines_from fuel buf buflen (if room then hdr ++ p ∷ [] else hdr) next in
    if room && not (is_header p) then some (hdr, some p) else rest

unfoldable pub parse_lines : Bytes → ℕ → Option (List Bytes × Option Bytes)
unfolding lines_from next_line is_header
parse_lines buf buflen = lines_from (suc (suc (length buf))) buf buflen [] (next_line buf buflen)

unfoldable pub parse_command : Bytes → ℕ → List Command → Option Command
unfolding has_prefix
parse_command buf len [] = none
parse_command buf len (c ∷ table) =
    if not (ltb len (length c.str)) && has_prefix c.str buf
    then some c
    else parse_command buf len table

-- With no table, `sm_cmd` stays NULL. The outer option is the fuel's, the inner one is `return -1`.
unfoldable pub parse : Bytes → ℕ → Option (List Command) → Option (Option Msg)
unfolding parse_lines parse_command
parse buf len table = elim (parse_lines buf len) [
  | none ↦ none
  | some (hdr, body) ↦ some (elim table [
    | none ↦ some (record { cmd = none; buf = buf; hdr = hdr; body = body; len = len })
    | some t ↦ elim (parse_command buf len t) [
      | none ↦ none
      | some c ↦ some (record { cmd = some c; buf = buf; hdr = hdr; body = body; len = len })
    ]
  ])
]
