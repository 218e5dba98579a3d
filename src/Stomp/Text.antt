-- ===== src/Stomp/Text.antt =====
-- The functions of the C library that stomp/stomp_proto.c uses on text, and its tests on bytes.
-- A `char *` is the list of the bytes from there on, up to the first NUL at or behind the end of
-- what the buffer holds; that NUL is the list's end. So a pointer into a buffer is a tail of the
-- buffer's list, and a read at the list's end gives 0.
use lmq.Prelude.{
  ℕ, zero, suc, ◌+◌, ◌*◌, ◌-◌, ◌^◌, min, Bool, true, false, ◌||◌, ◌&&◌, Option, none, some, [], ◌∷◌,
  leb, ◌==◌, if◌then◌else◌,
}
use lmq.Prelude.Int.{ℤ, pos, negsuc}
use Prim.Native.Char.{code}
use Prim.Native.String.{String}
use lmq.Pbuf.{Bytes}

-- The bytes of an ASCII literal.
abbrev pub codes : String → Bytes
codes String.[] = []
codes (String.◌∷◌ c s) = code c ∷ codes s

abbrev pub byte : Bytes → ℕ
byte [] = 0
byte (c ∷ _) = c

-- `'\r'` or `'\n'`
abbrev pub is_eol : ℕ → Bool
is_eol c = c == b'\r' || c == b'\n'

abbrev pub is_stop : ℕ → Bool
is_stop c = is_eol c || c == 0

-- `isspace` in the C locale
abbrev pub is_space : ℕ → Bool
is_space c = c == b' ' || (leb 9 c && leb c 13)

abbrev pub is_digit : ℕ → Bool
is_digit c = leb b'0' c && leb c b'9'

unfoldable pub strchr : Bytes → ℕ → Option Bytes
strchr [] k = none
strchr (c ∷ p) k = if c == k then some (c ∷ p) else if c == 0 then none else strchr p k

-- `strncmp(p, key, strlen(key)) == 0`, for a key with no NUL
unfoldable pub has_prefix : Bytes → Bytes → Bool
has_prefix [] p = true
has_prefix (k ∷ key) [] = false
has_prefix (k ∷ key) (c ∷ p) = k == c && has_prefix key p

unfoldable pub skip_spaces : Bytes → Bytes
skip_spaces [] = []
skip_spaces (c ∷ p) = if is_space c then skip_spaces p else c ∷ p

-- The digits from here on, behind the value so far.
unfoldable pub read_digits : ℕ → Bytes → ℕ × Bytes
read_digits acc [] = (acc, [])
read_digits acc (c ∷ p) =
    let rest = read_digits (acc * 10 + (c - b'0')) p in if is_digit c then rest else (acc, c ∷ p)

-- The value of a `long`, held at its ends.
abbrev clamp : Bool → ℕ → ℤ
clamp minus n =
    if minus
    then (elim (min n (2 ^ 63)) [ zero ↦ pos 0 | suc k ↦ negsuc k ])
    else pos (min n (2 ^ 63 - 1))

-- From behind the sign; `start` is where a text with no number ends.
read_number : Bytes → Bool → Bytes → ℤ × Bytes
unfolding read_digits
read_number start minus p =
    let (n, rest) = read_digits 0 p in
    if is_digit (byte p) then (clamp minus n, rest) else (pos 0, start)

read_sign : Bytes → Bytes → ℤ × Bytes
unfolding read_number
read_sign start [] = (pos 0, start)
read_sign start (c ∷ p) =
    if c == b'-'
    then read_number start true p
    else if c == b'+'
    then read_number start false p
    else read_number start false (c ∷ p)

-- `strtol(p, &end, 10)`: the value and `end`
unfoldable pub strtol : Bytes → ℤ × Bytes
unfolding read_sign skip_spaces
strtol p = read_sign p (skip_spaces p)
