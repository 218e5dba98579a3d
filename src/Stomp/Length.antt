-- ===== src/Stomp/Length.antt =====
-- `stomp_msg_estimlen` and `stomp_msg_length` of stomp/stomp_proto.c: where a message ends.
pub mod Sound
use lmq.Prelude.{
  ℕ, zero, suc, ◌+◌, ◌-◌, Bool, true, false, Option, none, some, List, [], ◌∷◌, ltb, leb, ◌==◌,
  if◌then◌else◌, length, get_or,
}
use lmq.Prelude.Int.{ℤ, pos, negsuc, to_int, add_ℕ}
use lmq.Pbuf.{Bytes, Ret, ok, failed, fault}
use lmq.Stomp.Text.{byte, is_stop, strtol, codes}
use lmq.Stomp.Parse.{Msg, parse}
use lmq.Stomp.Header.{read_header}

abbrev pub clen_size : ℕ
clen_size = 256

-- The estimate from the text of the header's value and the body.
estimate : Bytes → Option Bytes → Bytes → Ret ℤ
unfolding strtol to_int add_ℕ
estimate buf none clen = failed
estimate buf (some body) clen =
    let (n, end) = strtol clen in
    if is_stop (byte end)
    then ok (to_int (add_ℕ (to_int n) (length buf - length body + 1)))
    else failed

estimate_parsed : Option (Option Msg) → Ret ℤ
unfolding estimate read_header
estimate_parsed none = fault
estimate_parsed (some none) = failed
estimate_parsed (some (some m)) = elim (read_header clen_size m.hdr (codes "content-length:")) [
  | ok clen ↦ estimate m.buf m.body clen
  | failed ↦ failed
  | fault ↦ fault
]

-- `failed` is `return -1`; the estimate itself can be any `int`.
unfoldable pub msg_estimlen : Bytes → ℕ → Ret ℤ
unfolding estimate_parsed parse
msg_estimlen buf len = estimate_parsed (parse buf len none)

-- The length of the text up to the first NUL among the first `len` bytes, and one more, for `i`
-- bytes read so far.
unfoldable pub scan_nul : ℕ → ℕ → Bytes → Ret ℕ
scan_nul zero i p = failed
scan_nul (suc len) i [] = ok (i + 1)
scan_nul (suc len) i (c ∷ p) = if c == 0 then ok (i + 1) else scan_nul len (i + 1) p

-- `buf[clen - 1]`
ends_at : Bytes → ℕ → ℕ → Ret ℕ
ends_at buf len clen =
    if leb clen len then if get_or buf (clen - 1) 0 == 0 then ok clen else failed else failed

length_from : Bytes → ℕ → Ret ℤ → Ret ℕ
unfolding scan_nul ends_at
length_from buf len fault = fault
length_from buf len failed = scan_nul len 0 buf
length_from buf len (ok (negsuc n)) = scan_nul len 0 buf
length_from buf len (ok (pos zero)) = scan_nul len 0 buf
length_from buf len (ok (pos (suc n))) = ends_at buf len (suc n)

unfoldable pub msg_length : Bytes → ℕ → Ret ℕ
unfolding msg_estimlen length_from
msg_length buf len = length_from buf len (msg_estimlen buf len)
