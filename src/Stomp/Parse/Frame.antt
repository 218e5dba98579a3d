-- ===== src/Stomp/Parse/Frame.antt =====
-- A STOMP message as a client writes it, and `stomp_parse_lines` of stomp_proto.c on it.
use lmq.Prelude.{◌<◌, ◌≡◌, true, false, List, [], ◌∷◌, ◌++◌, arith, length, length-append}
use lmq.Pbuf.{Bytes}
use lmq.Stomp.Text.{is_eol}
use lmq.Stomp.Parse.{is_header}

-- The headers, each with its newline, then the empty line, then the rest.
unfoldable pub headers : List Bytes → Bytes → Bytes
headers [] rest = b'\n' ∷ rest
headers (h ∷ hs) rest = h ++ (b'\n' ∷ headers hs rest)

-- The whole message: the command's line, the headers, the empty line, and the rest.
unfoldable pub message : Bytes → List Bytes → Bytes → Bytes
unfolding headers
message cmd hs rest = cmd ++ (b'\n' ∷ headers hs rest)

-- The pointers to the headers of a message.
unfoldable pub header_ptrs : List Bytes → Bytes → List Bytes
unfolding headers
header_ptrs [] rest = []
header_ptrs (h ∷ hs) rest = headers (h ∷ hs) rest ∷ header_ptrs hs rest

-- The line that follows, where the headers `hs` are left.
abbrev line_at : List Bytes → Bytes → Bytes
line_at [] rest = rest
line_at (h ∷ hs) rest = headers (h ∷ hs) rest

-- No newline and no carriage return.
abbrev pub IsLine : Bytes → Type 0
IsLine [] = Unit {0}
IsLine (c ∷ p) = (is_eol c ≡ false) × IsLine p

-- Each header is one line, and has its colon among the first 80 bytes.
abbrev pub AreHeaders : List Bytes → Type 0
AreHeaders [] = Unit {0}
AreHeaders (h ∷ hs) = IsLine h × (is_header h ≡ true) × AreHeaders hs

-- The rest does not start with an empty line, nor with one that looks like a header.
abbrev pub StartsBody : Bytes → Type 0
StartsBody [] = ⊥
StartsBody (c ∷ p) = (is_eol c ≡ false) × (is_header (c ∷ p) ≡ false)

pub headers-longer : (hs : List Bytes) (rest : Bytes) → length rest < length (headers hs rest)
unfolding headers
headers-longer [] rest = omega arith
headers-longer (h ∷ hs) rest =
    omega (arith, length-append h (b'\n' ∷ headers hs rest), headers-longer hs rest)
