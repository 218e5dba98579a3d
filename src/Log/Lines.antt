-- ===== src/Log/Lines.antt =====
-- How long a line of libsf/sf_plog.c is.
use Prim.Native.Nat.{bit_and}
use lmq.Prelude.{
  Bool-cases, inl, inr, ℕ, zero, suc, ◌+◌, ◌/◌, ◌%◌, ◌^◌, ◌≤◌, ◌≡◌, refl, ◌∷◌, ◌++◌, ◌==◌, ltb,
  if◌then◌else◌, if-both, arith, length, length-append, length-take, [],
}
use lmq.Pbuf.{Bytes}
use lmq.Stomp.Text.{codes}
use lmq.Log.{
  Log, Moment, Written, in_buf, hex_digit, hex, thread, word, print, plog_flag, plog, plog_error,
}

length-hex : (k n : ℕ) → length (hex k n) ≡ k
unfolding hex
length-hex zero n = refl
length-hex (suc k) n =
    omega (arith, length-append (hex k (n / 16)) (hex_digit (n % 16) ∷ []), length-hex k (n / 16))

word_fits : (level : ℕ) → length (word level) ≤ 10
unfolding word
word_fits level = ground arith

thread_fits : (self : ℕ) → length (thread self) ≤ 12
thread_fits self =
    if-both (λ b. length b ≤ 12) (self == 0) (codes " ")
      (codes " 0x" ++ hex 8 (self % 2 ^ 32) ++ codes " ") (λ e. omega arith)
      λ e.
        omega
          (arith, length-append (hex 8 (self % 2 ^ 32)) (codes " "), length-hex 8 (self % 2 ^ 32))

line_fits :
    (a b c d : Bytes)
    → length b ≤ 12
    → length c ≤ 10
    → length d ≤ 255
    → length (a ++ b ++ c ++ d ++ 10 ∷ []) ≤ length a + 278
line_fits a b c d hb hc hd = omega (
  arith,
  length-append (a ++ b ++ c ++ d) (10 ∷ []),
  length-append (a ++ b ++ c) d,
  length-append (a ++ b) c,
  length-append a b,
)

print_fits :
    (m : Moment) (level : ℕ) (text : Bytes) → length (print m level text) ≤ length m.stamp + 278
unfolding print
print_fits m level text =
    line_fits m.stamp (thread m.self) (word level) (in_buf text) (thread_fits m.self)
      (word_fits level) (omega (arith, length-take 255 text))

plog_fits :
    (l : Log) (m : Moment) (level : ℕ) (text : Bytes) (w : Written)
    → length (plog l m level text w).out
      ≤ length w.out + (if ltb l.mask level then 0 else length m.stamp + 278)
unfolding plog
plog_fits l m level text w = elim (Bool-cases (ltb l.mask level)) [
  | inl e ↦ rw e (omega arith)
  | inr e ↦ rw e (
      if-both (λ (v : Written). length v.out ≤ length w.out + (length m.stamp + 278))
        (bit_and l.flags plog_flag == 0) (record w { out = w.out ++ print m level text })
        (record w { sent = w.sent ++ (level, text) ∷ [] })
        (λ f. omega (arith, length-append w.out (print m level text), print_fits m level text))
        λ f. omega arith)
]

-- A call of `plog` or `plog_error`, with a text of any length, writes at most 278 bytes and the time to
-- `stdout`, and nothing at a level that the mask does not let through.
pub plog_error-fits :
    (l : Log) (m : Moment) (level : ℕ) (text reason : Bytes) (w : Written)
    → (length (plog l m level text w).out
        ≤ length w.out + (if ltb l.mask level then 0 else length m.stamp + 278))
      × (length (plog_error l m level text reason w).out
          ≤ length w.out + (if ltb l.mask level then 0 else length m.stamp + 278))
unfolding plog_error
plog_error-fits l m level text reason w =
    (plog_fits l m level text w, plog_fits l m level (in_buf text ++ codes ": " ++ reason) w)
