-- ===== src/MsgQueue/Frames.antt =====
-- How msgqueue.c lays messages out in a buffer: each behind its length.
use lmq.Prelude.{
  ℕ, ◌+◌, ◌^◌, ◌<◌, ◌≡◌, refl, sym, ap, ◌∙◌, List, [], ◌∷◌, ◌++◌, append-nil, append_assoc, arith,
  length, length-append,
}
use lmq.Pbuf.{Bytes}
use lmq.MsgQueue.{header_size, header_bytes, header_len}

abbrev pub frame : Bytes → Bytes
frame m = header_bytes (length m) ++ m

-- The data of a buffer that holds these messages, the oldest first.
unfoldable pub encode : List Bytes → Bytes
encode [] = []
encode (m ∷ ms) = frame m ++ encode ms

pub length-header_bytes : (n : ℕ) → length (header_bytes n) ≡ header_size
unfolding header_bytes
length-header_bytes n = refl

-- The length is read back from the header.
pub header_len-header_bytes :
    (n : ℕ) (rest : Bytes) → n < 2 ^ 32 → header_len (header_bytes n ++ rest) ≡ n
unfolding header_bytes header_len
header_len-header_bytes n rest h = omega arith

pub length-encode_cons :
    (m : Bytes) (ms : List Bytes)
    → length (encode (m ∷ ms)) ≡ header_size + length m + length (encode ms)
unfolding encode
length-encode_cons m ms = omega (
  arith,
  length-append (frame m) (encode ms),
  length-append (header_bytes (length m)) m,
  length-header_bytes (length m),
)

pub encode-append : (ms : List Bytes) (m : Bytes) → encode (ms ++ m ∷ []) ≡ encode ms ++ frame m
unfolding encode
encode-append [] m = append-nil (frame m)
encode-append (x ∷ xs) m =
    ap (◌++◌ (frame x)) (encode-append xs m) ∙ sym (append_assoc (frame x) (encode xs) (frame m))
