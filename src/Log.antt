-- ===== src/Log.antt =====
-- The log of libsf/sf_plog.c: levels, sinks and lines. What a format and its arguments give, without
-- a bound, is the text of a call; the time as `strftime` writes it, the thread and what `strerror`
-- says are arguments.
mod Syslog
mod Lines
mod Tests
use Prim.Native.Nat.{bit_or, bit_and}
use lmq.Prelude.{
  ℕ, zero, suc, ◌+◌, ◌-◌, ◌*◌, ◌/◌, ◌%◌, ◌^◌, Bool, List, [], ◌∷◌, ◌++◌, take, ltb, ◌==◌,
  if◌then◌else◌,
}
use lmq.Pbuf.{Bytes}
use lmq.Stomp.Text.{codes}

-- `LogFlags` and `MaskLevel`
pub record Log : Type 0 where
  pub flags : ℕ
  pub mask : ℕ

-- `LOG_CRIT` to `LOG_DEBUG` and `PLOG_SYSLOG`
abbrev pub log_crit : ℕ
log_crit = 2

abbrev pub log_err : ℕ
log_err = 3

abbrev pub log_warning : ℕ
log_warning = 4

abbrev pub log_notice : ℕ
log_notice = 5

abbrev pub log_info : ℕ
log_info = 6

abbrev pub log_debug : ℕ
log_debug = 7

abbrev pub plog_flag : ℕ
plog_flag = 1

abbrev pub at_start : Log
at_start = record { flags = 0; mask = log_info }

-- What has been written to `stdout`, and the levels and texts that `vsyslog` got.
pub record Written : Type 0 where
  pub out : Bytes
  pub sent : List (ℕ × Bytes)

-- The size of the buffers for a message
abbrev pub buf_size : ℕ
buf_size = 256

-- What `vsnprintf` leaves in such a buffer, before the NUL
abbrev pub in_buf : Bytes → Bytes
in_buf text = take (buf_size - 1) text

abbrev pub hex_digit : ℕ → ℕ
hex_digit d = if ltb d 10 then 48 + d else 87 + d

-- `%0nx`, for a number that has at most `n` digits
unfoldable pub hex : ℕ → ℕ → Bytes
hex zero n = []
hex (suc k) n = hex k (n / 16) ++ hex_digit (n % 16) ∷ []

-- The time and the thread that prints
pub record Moment : Type 0 where
  pub stamp : Bytes
  pub self : ℕ

abbrev pub thread : ℕ → Bytes
thread self = if self == 0 then codes " " else (codes " 0x" ++ hex 8 (self % 2 ^ 32) ++ codes " ")

-- The word for a level; there is none for `LOG_EMERG` and `LOG_ALERT`.
unfoldable pub word : ℕ → Bytes
word level =
    if level == log_crit
    then codes "[CRIT] "
    else if level == log_err
    then codes "[ERR] "
    else if level == log_warning
    then codes "[WARNING] "
    else if level == log_notice
    then codes "[NOTICE] "
    else if level == log_info
    then codes "[INFO] "
    else if level == log_debug
    then codes "[DEBUG] "
    else []

-- `plog_print`: the line that it adds
unfoldable pub print : Moment → ℕ → Bytes → Bytes
unfolding word
print m level text = m.stamp ++ thread m.self ++ word level ++ in_buf text ++ 10 ∷ []

-- `plog`
unfoldable pub plog : Log → Moment → ℕ → Bytes → Written → Written
unfolding print
plog l m level text w =
    if ltb l.mask level
    then w
    else if bit_and l.flags plog_flag == 0
    then record w { out = w.out ++ print m level text }
    else record w { sent = w.sent ++ (level, text) ∷ [] }

-- `plog_error`, with what `strerror` says
unfoldable pub plog_error : Log → Moment → ℕ → Bytes → Bytes → Written → Written
unfolding plog
plog_error l m level text reason w = plog l m level (in_buf text ++ codes ": " ++ reason) w

-- `plog_setflag`, `plog_setmask` and `plog_openlog`
unfoldable pub setflag : Log → ℕ → Log
setflag l flag = record l { flags = bit_or l.flags flag }

unfoldable pub setmask : Log → ℕ → Log
setmask l upto = record l { mask = upto }

unfoldable pub openlog : Log → Log
openlog l = record l { flags = bit_or l.flags plog_flag }
