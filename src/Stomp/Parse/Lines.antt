-- ===== src/Stomp/Parse/Lines.antt =====
-- The lines that `stomp_parse_lines` of stomp_proto.c finds in any buffer, and that its loop ends.
use lmq.Prelude.{
  sym, ap, ◌∙◌, append-nil, append_assoc, ℕ, zero, suc, ◌+◌, ◌-◌, ◌≤◌, ◌<◌, ◌≡◌, refl, inl, inr,
  Bool, true, false, Option, none, some, List, [], ◌∷◌, ◌++◌, ltb, if◌then◌else◌, Bool-cases,
  Option-cases, arith, length, length-append,
}
use lmq.Pbuf.{Bytes}
use lmq.Stomp.Parse.{headers_max, next_line_from, next_line, is_header, lines_from, parse_lines}

abbrev pub AllHeaders : List Bytes → Type 0
AllHeaders [] = Unit {0}
AllHeaders (h ∷ hdr) = (is_header h ≡ true) × AllHeaders hdr

AllHeaders-snoc :
    (hdr : List Bytes) (p : Bytes)
    → AllHeaders hdr
    → is_header p ≡ true
    → AllHeaders (hdr ++ p ∷ [])
AllHeaders-snoc [] p a h = (h, tt)
AllHeaders-snoc (x ∷ hdr) p a h = (a.0, AllHeaders-snoc hdr p a.1 h)

-- The next line starts behind the first byte of this one.
next_line_from-shorter :
    (n : ℕ) (flag : Bool) (p q : Bytes)
    → next_line_from n flag p ≡ some q
    → length q + (if flag then 0 else 1) ≤ length p
unfolding next_line_from
next_line_from-shorter zero flag p q e = absurd (cc)
next_line_from-shorter (suc n) flag [] q e = absurd (cc)
next_line_from-shorter (suc n) true (c ∷ p) q e = ground (arith, next_line_from-shorter n true p q)
next_line_from-shorter (suc n) false (c ∷ p) q e =
    ground (arith, next_line_from-shorter n true p q, next_line_from-shorter n false p q)

pub next_line-shorter : (p q : Bytes) (n : ℕ) → next_line p n ≡ some q → length q < length p
unfolding next_line
next_line-shorter p q n e = omega (arith, next_line_from-shorter n false p q e)

-- The body, if there is one, starts with a line that is no header.
abbrev pub IsBody : Option Bytes → Type 0
IsBody none = Unit {0}
IsBody (some b) = is_header b ≡ false

-- What the loop finds: at most eight headers, each a header line, and the first line that is none
-- as the body; with eight headers there is no body.
abbrev pub Parsed : Option (List Bytes × Option Bytes) → Type 0
Parsed none = ⊥
Parsed (some (hdr, body)) =
    (length hdr ≤ headers_max)
    × AllHeaders hdr
    × IsBody body
    × (length hdr ≡ headers_max → body ≡ none)

abbrev Before : Option Bytes → ℕ → Type 0
Before none fuel = 0 < fuel
Before (some p) fuel = length p + 1 < fuel

Before-next : (p : Bytes) (n fuel : ℕ) → length p < fuel → Before (next_line p n) fuel
Before-next p n fuel h = elim (Option-cases (next_line p n)) [
  | inl e ↦ rw e (omega arith)
  | inr (q, e) ↦ rw e (omega (arith, next_line-shorter p q n e))
]

module _ (fuel : ℕ) (buf : Bytes) (buflen : ℕ) (hdr : List Bytes) (p : Bytes) where
  abbrev next_of : Option Bytes
  next_of = next_line p (buflen - (length buf - length p))

  pub lines_from_body :
      ltb (length hdr) headers_max ≡ true
      → is_header p ≡ false
      → lines_from (suc fuel) buf buflen hdr (some p) ≡ some (hdr, some p)
  unfolding lines_from
  lines_from_body room h = rw (room, h)

  pub lines_from_header :
      ltb (length hdr) headers_max ≡ true
      → is_header p ≡ true
      → lines_from (suc fuel) buf buflen hdr (some p)
        ≡ lines_from fuel buf buflen (hdr ++ p ∷ []) next_of
  unfolding lines_from
  lines_from_header room h = rw (room, h)

  lines_from_full :
      ltb (length hdr) headers_max ≡ false
      → lines_from (suc fuel) buf buflen hdr (some p) ≡ lines_from fuel buf buflen hdr next_of
  unfolding lines_from
  lines_from_full room = rw room

lines_from-Parsed :
    (fuel : ℕ) (buf : Bytes) (buflen : ℕ) (hdr : List Bytes) (p : Option Bytes)
    → Before p fuel
    → length hdr ≤ headers_max
    → AllHeaders hdr
    → Parsed (lines_from fuel buf buflen hdr p)
lines_from-Parsed zero buf buflen hdr none f n a = absurd (omega arith)
lines_from-Parsed zero buf buflen hdr (some p) f n a = absurd (omega arith)
lines_from-Parsed (suc fuel) buf buflen hdr none f n a = unfold lines_from in (n, a, tt, λ _. refl)
lines_from-Parsed (suc fuel) buf buflen hdr (some p) f n a =
    let k = buflen - (length buf - length p) in
    elim (Bool-cases (ltb (length hdr) headers_max)) [
      | inr full ↦ rw (lines_from_full fuel buf buflen hdr p full) (
          lines_from-Parsed fuel buf buflen hdr (next_line p k) (Before-next p k fuel (omega arith))
            n a)
      | inl room ↦ elim (Bool-cases (is_header p)) [
        | inr h ↦
            rw (lines_from_body fuel buf buflen hdr p room h) (n, a, h, λ e. absurd (ground arith))
        | inl h ↦ rw (lines_from_header fuel buf buflen hdr p room h) (
            lines_from-Parsed fuel buf buflen (hdr ++ p ∷ []) (next_line p k)
              (Before-next p k fuel (omega arith)) (ground (arith, length-append hdr (p ∷ [])))
              (AllHeaders-snoc hdr p a h))
      ]
    ]

-- On every buffer, `stomp_parse_lines` ends, and finds at most eight headers, all of them header
-- lines, and as the body the first line that is none; it finds no body behind eight headers.
pub parse_lines-Parsed : (buf : Bytes) (buflen : ℕ) → Parsed (parse_lines buf buflen)
unfolding parse_lines
parse_lines-Parsed buf buflen =
    lines_from-Parsed (suc (suc (length buf))) buf buflen [] (next_line buf buflen)
      (Before-next buf buflen (suc (suc (length buf))) (omega arith)) (omega arith) tt

-- What the loop makes of a line, when there is room for `room` headers more: the header lines up to the
-- first line that is none, which is the body. With no room left, there is no body.
pub data Reads (buf : Bytes) (buflen : ℕ)
    : Option Bytes → ℕ → List Bytes → Option Bytes → Type 0 where
  ended : (room : ℕ) → Reads buf buflen none room [] none
  body :
      (p : Bytes) (room : ℕ)
      → is_header p ≡ false
      → Reads buf buflen (some p) (suc room) [] (some p)
  header :
      (p : Bytes) (room : ℕ) (hdr : List Bytes) (b : Option Bytes)
      → is_header p ≡ true
      → Reads buf buflen (next_line p (buflen - (length buf - length p))) room hdr b
      → Reads buf buflen (some p) (suc room) (p ∷ hdr) b
  full : (p : Bytes) → Reads buf buflen (some p) 0 [] none

abbrev pub Found :
    Bytes → ℕ → Option Bytes → ℕ → List Bytes → Option (List Bytes × Option Bytes) → Type 0
Found buf buflen p room hdr o =
    (more : List Bytes) × (b : Option Bytes) × (o ≡ some (hdr ++ more, b))
    × Reads buf buflen p room more b

-- Behind the last header, the rest of the lines is skipped.
skipped :
    (fuel : ℕ) (buf : Bytes) (buflen : ℕ) (hdr : List Bytes) (p : Option Bytes)
    → Before p fuel
    → ltb (length hdr) headers_max ≡ false
    → lines_from fuel buf buflen hdr p ≡ some (hdr, none)
skipped zero buf buflen hdr none f n = absurd (omega arith)
skipped zero buf buflen hdr (some p) f n = absurd (omega arith)
skipped (suc fuel) buf buflen hdr none f n = unfold lines_from in refl
skipped (suc fuel) buf buflen hdr (some p) f n =
    let k = buflen - (length buf - length p) in
    lines_from_full fuel buf buflen hdr p n
    ∙ skipped fuel buf buflen hdr (next_line p k) (Before-next p k fuel (omega arith)) n

lines_from-Found :
    (fuel : ℕ) (buf : Bytes) (buflen : ℕ) (hdr : List Bytes) (p : Option Bytes) (room : ℕ)
    → Before p fuel
    → length hdr + room ≡ headers_max
    → Found buf buflen p room hdr (lines_from fuel buf buflen hdr p)
lines_from-Found zero buf buflen hdr none room f n = absurd (omega arith)
lines_from-Found zero buf buflen hdr (some p) room f n = absurd (omega arith)
lines_from-Found (suc fuel) buf buflen hdr none room f n =
    unfold lines_from in ([], none, ap (λ l. some (l, none)) (sym (append-nil hdr)), ended room)
lines_from-Found (suc fuel) buf buflen hdr (some p) zero f n = (
  [],
  none,
  skipped (suc fuel) buf buflen hdr (some p) f (ground arith)
      ∙ ap (λ l. some (l, none)) (sym (append-nil hdr)),
  full p,
)
lines_from-Found (suc fuel) buf buflen hdr (some p) (suc room) f n =
    let free : ltb (length hdr) headers_max ≡ true = ground arith in
    let k = buflen - (length buf - length p) in
    elim (Bool-cases (is_header p)) [
      | inr h ↦ (
        [],
        some p,
        lines_from_body fuel buf buflen hdr p free h
            ∙ ap (λ l. some (l, some p)) (sym (append-nil hdr)),
        body p room h,
      )
      | inl h ↦
          let (more, b, e, reads) =
            lines_from-Found fuel buf buflen (hdr ++ p ∷ []) (next_line p k) room
              (Before-next p k fuel (omega arith)) (omega (arith, length-append hdr (p ∷ []))) in
          (
            p ∷ more,
            b,
            lines_from_header fuel buf buflen hdr p free h
                ∙ e
                ∙ ap (λ l. some (l, b)) (append_assoc hdr (p ∷ []) more),
            header p room more b h reads,
          )
    ]

-- On every buffer, `stomp_parse_lines` ends with these headers and this body: from the second line on,
-- each line that is a header is the next of the headers, up to eight, and the first line that is none
-- is the body. When there are eight headers, or the lines end before, there is no body.
pub parse_lines-Found :
    (buf : Bytes) (buflen : ℕ)
    → Found buf buflen (next_line buf buflen) headers_max [] (parse_lines buf buflen)
unfolding parse_lines
parse_lines-Found buf buflen =
    lines_from-Found (suc (suc (length buf))) buf buflen [] (next_line buf buflen) headers_max
      (Before-next buf buflen (suc (suc (length buf))) (omega arith)) refl
