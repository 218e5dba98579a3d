-- ===== src/Log/Syslog.antt =====
-- That the log of libsf/sf_plog.c stays with `syslog` once it has been opened there.
use Prim.Native.Nat.{bit_or, bit_and, bit_or-bitwise, bit_and-bitwise}
use lmq.Prelude.{
  ℕ, zero, suc, ◌%◌, ◌≡◌, refl, sym, ◌∙◌, inl, inr, false, List, [], ◌∷◌, ◌++◌, append-nil,
  append_assoc, ltb, ◌==◌, if◌then◌else◌, Bool-cases, arith,
}
use lmq.Pbuf.{Bytes}
use lmq.Stomp.Text.{codes}
use lmq.Log.{Log, Moment, Written, in_buf, plog, plog_error, setflag, setmask, openlog}

-- A call of the log
pub data Call : Type 0 where
  say : (m : Moment) (level : ℕ) (text : Bytes) → Call
  fail : (m : Moment) (level : ℕ) (text reason : Bytes) → Call
  set_flag : (flag : ℕ) → Call
  set_mask : (upto : ℕ) → Call
  open_log : Call

unfoldable pub run : List Call → Log → Written → Log × Written
unfolding plog plog_error setflag setmask openlog
run [] l w = (l, w)
run (say m level text ∷ cs) l w = run cs l (plog l m level text w)
run (fail m level text reason ∷ cs) l w = run cs l (plog_error l m level text reason w)
run (set_flag flag ∷ cs) l w = run cs (setflag l flag) w
run (set_mask upto ∷ cs) l w = run cs (setmask l upto) w
run (open_log ∷ cs) l w = run cs (openlog l) w

abbrev passed : ℕ → ℕ → Bytes → List (ℕ × Bytes) → List (ℕ × Bytes)
passed mask level text rest = if ltb mask level then rest else (level, text) ∷ rest

-- The levels and texts that the mask lets through
unfoldable pub let_through : List Call → ℕ → List (ℕ × Bytes)
let_through [] mask = []
let_through (say m level text ∷ cs) mask = passed mask level text (let_through cs mask)
let_through (fail m level text reason ∷ cs) mask =
    passed mask level (in_buf text ++ codes ": " ++ reason) (let_through cs mask)
let_through (set_flag flag ∷ cs) mask = let_through cs mask
let_through (set_mask upto ∷ cs) mask = let_through cs upto
let_through (open_log ∷ cs) mask = let_through cs mask

or-odd : (a b : ℕ) → a % 2 ≡ 1 → bit_or a b % 2 ≡ 1
or-odd zero b e = absurd (omega arith)
or-odd (suc a) b e = omega (arith, bit_or-bitwise (suc a) b, e)

or_one : (a : ℕ) → bit_or a 1 % 2 ≡ 1
or_one zero = refl
or_one (suc a) = omega (arith, bit_or-bitwise (suc a) 1)

and_one : (a : ℕ) → a % 2 ≡ 1 → (bit_and a 1 == 0) ≡ false
and_one zero e = absurd (omega arith)
and_one (suc a) e =
    let odd : bit_and (suc a) 1 % 2 ≡ 1 = omega (arith, bit_and-bitwise (suc a) 1, e) in
    ground (arith, odd)

-- The log is with `syslog`.
abbrev pub IsOpen : Log → Type 0
IsOpen l = l.flags % 2 ≡ 1

-- What a call writes in this state
plog-open :
    (l : Log) (m : Moment) (level : ℕ) (text : Bytes) (w : Written) (rest : List (ℕ × Bytes))
    → IsOpen l
    → ((plog l m level text w).out ≡ w.out)
      × ((plog l m level text w).sent ++ rest ≡ w.sent ++ passed l.mask level text rest)
unfolding plog
plog-open l m level text w rest on =
    let there = and_one l.flags on in
    elim (Bool-cases (ltb l.mask level)) [
      | inl e ↦ rw e (refl, refl)
      | inr e ↦ rw (e, there) (refl, append_assoc w.sent ((level, text) ∷ []) rest)
    ]

sent_on :
    {a b c : List (ℕ × Bytes)} {o o' o'' : Bytes}
    → (o ≡ o') × (c ≡ a)
    → (o' ≡ o'') × (a ≡ b)
    → (o ≡ o'') × (c ≡ b)
sent_on u v = (u.0 ∙ v.0, u.1 ∙ v.1)

-- Once the log is open, calls in any order write nothing to `stdout`, and `vsyslog` gets the texts
-- that the mask of the moment lets through, in their order.
pub run-IsOpen :
    (cs : List Call) (l : Log) (w : Written)
    → IsOpen l
    → ((run cs l w).1.out ≡ w.out) × ((run cs l w).1.sent ≡ w.sent ++ let_through cs l.mask)
unfolding run let_through plog_error setflag setmask openlog
run-IsOpen [] l w on = (refl, sym (append-nil w.sent))
run-IsOpen (say m level text ∷ cs) l w on =
    sent_on (run-IsOpen cs l (plog l m level text w) on)
      (plog-open l m level text w (let_through cs l.mask) on)
run-IsOpen (fail m level text reason ∷ cs) l w on =
    sent_on (run-IsOpen cs l (plog_error l m level text reason w) on)
      (plog-open l m level (in_buf text ++ codes ": " ++ reason) w (let_through cs l.mask) on)
run-IsOpen (set_flag flag ∷ cs) l w on = run-IsOpen cs (setflag l flag) w (or-odd l.flags flag on)
run-IsOpen (set_mask upto ∷ cs) l w on = run-IsOpen cs (setmask l upto) w on
run-IsOpen (open_log ∷ cs) l w on = run-IsOpen cs (openlog l) w (or_one l.flags)
