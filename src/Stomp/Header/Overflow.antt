-- ===== src/Stomp/Header/Overflow.antt =====
-- What `stomp_read_header` of stomp_proto.c copies, and when it writes outside its buffer.
use lmq.Prelude.{ℕ, Option, none, some, List, [], ◌∷◌, ltb, if◌then◌else◌, length}
use lmq.Pbuf.{Bytes, Ret, ok, failed, fault}
use lmq.Stomp.Text.{is_stop, strchr, skip_spaces}
use lmq.Stomp.Header.{find_header}

-- The bytes up to the end of the line or of the text.
unfoldable pub line_of : Bytes → Bytes
line_of [] = []
line_of (c ∷ p) = if is_stop c then [] else c ∷ line_of p

-- The value behind a colon: without the white space before it, newlines included, and up to the
-- end of its line.
value_behind : Option Bytes → Option Bytes
unfolding line_of
value_behind none = none
value_behind (some []) = some []
value_behind (some (_ ∷ p)) = some (line_of (skip_spaces p))

value_of : Option Bytes → Option Bytes
unfolding value_behind
value_of none = none
value_of (some h) = value_behind (strchr h b':')

-- The value of the first header that starts with the key.
unfoldable pub header_value : List Bytes → Bytes → Option Bytes
unfolding value_of
header_value hdr key = value_of (find_header hdr key)

-- The value in a buffer of `bufmax` bytes, if it fits with its NUL.
abbrev pub copied : ℕ → Option Bytes → Ret Bytes
copied bufmax none = failed
copied bufmax (some v) = if ltb (length v) bufmax then ok v else fault
