-- ===== src/Stomp/Header.antt =====
-- `stomp_read_header`, `stomp_find_header` and `stomp_skip_command` of stomp/stomp_proto.c.
pub mod Overflow
use lmq.Prelude.{
  ℕ, zero, suc, ◌+◌, ◌-◌, Bool, true, false, Option, none, some, List, [], ◌∷◌, leb, ◌==◌,
  if◌then◌else◌, length,
}
use lmq.Pbuf.{Bytes, Ret, ok, failed, fault}
use lmq.Stomp.Text.{is_stop, strchr, has_prefix, skip_spaces}
use lmq.Stomp.Parse.{Msg}

unfoldable pub find_header : List Bytes → Bytes → Option Bytes
unfolding has_prefix
find_header [] key = none
find_header (h ∷ hdr) key = if has_prefix key h then some h else find_header hdr key

-- `*buf = c` and then the rest, in a buffer with `room` bytes left.
put : ℕ → ℕ → Ret Bytes → Ret Bytes
put zero c rest = fault
put (suc room) c (ok v) = ok (c ∷ v)
put (suc room) c failed = failed
put (suc room) c fault = fault

-- `*buf = 0`
terminate : ℕ → Ret Bytes
terminate zero = fault
terminate (suc room) = ok []

-- The copying loop and the final NUL. `bufmax` is what the loop tests, which it never counts down;
-- `room` is what is left of the buffer. The result is the text that the buffer then holds.
unfoldable pub copy_value : ℕ → ℕ → Bytes → Ret Bytes
unfolding put terminate
copy_value bufmax room [] = terminate room
copy_value bufmax room (c ∷ p) =
    let rest = copy_value bufmax (room - 1) p in
    if is_stop c then terminate room else if leb bufmax 1 then terminate room else put room c rest

-- Behind the colon.
value_start : Bytes → Bytes
unfolding skip_spaces
value_start [] = []
value_start (_ ∷ p) = skip_spaces p

-- From the colon that was found, into a buffer of `bufmax` bytes.
read_from : ℕ → Option Bytes → Ret Bytes
unfolding copy_value value_start
read_from bufmax none = failed
read_from bufmax (some p) = copy_value bufmax bufmax (value_start p)

read_found : ℕ → Option Bytes → Ret Bytes
unfolding read_from strchr
read_found bufmax none = failed
read_found bufmax (some h) = read_from bufmax (strchr h b':')

unfoldable pub read_header : ℕ → List Bytes → Bytes → Ret Bytes
unfolding find_header read_found
read_header bufmax hdr key = read_found bufmax (find_header hdr key)

-- `strchr(buf, '\n')` and the byte behind it
unfoldable pub skip_command : Bytes → Option Bytes
unfolding strchr
skip_command buf = elim (strchr buf b'\n') [
  | none ↦ none
  | some p ↦ elim p [ [] ↦ none | _ ∷ rest ↦ some rest ]
]
