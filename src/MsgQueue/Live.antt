-- ===== src/MsgQueue/Live.antt =====
-- Reading the front message of one buffer of msgqueue.c.
use lmq.Prelude.{
  ℕ, ◌+◌, ◌^◌, ◌<◌, ◌≡◌, refl, sym, ap, ◌∙◌, true, false, List, [], ◌∷◌, ◌++◌, ltb, leb,
  if◌then◌else◌, append_assoc, arith, length, length-append, take, drop, take-append_exact,
  drop-append_exact, take-append-drop, drop-drop,
}
use lmq.Pbuf.{Pbuf, Bytes, contents, data_len, adjust}
use lmq.Pbuf.Inv.{length-contents}
use lmq.Pbuf.Contents.{adjust_lem}
use lmq.MsgQueue.{header_size, header_bytes, header_len, front_len}
use lmq.MsgQueue.Frames.{
  encode, frame, length-header_bytes, header_len-header_bytes, length-encode_cons,
}
use lmq.MsgQueue.Rep.{Live}

module _ {size : ℕ} {p : Pbuf} where
  pub data_len-Live : {ms : List Bytes} → Live size p ms → data_len p ≡ length (encode ms)
  data_len-Live v = sym (length-contents p v.valid) ∙ ap length v.data_is

  -- A buffer that holds no message has less data than a header.
  pub Live-short : Live size p [] → ltb (data_len p) header_size ≡ true
  unfolding encode
  Live-short v = ground (arith, data_len-Live v)

  module _ (m : Bytes) (ms : List Bytes) (v : Live size p (m ∷ ms)) where
    pub data_len-cons : data_len p ≡ header_size + length m + length (encode ms)
    data_len-cons = data_len-Live v ∙ length-encode_cons m ms

    pub Live-found : ltb (data_len p) header_size ≡ false
    Live-found = ground (arith, data_len-cons)

    -- What the memory holds from `pb_head` on.
    memory :
        drop p.head p.buf
        ≡ header_bytes (length m) ++ (m ++ (encode ms ++ drop (data_len p) (drop p.head p.buf)))
    unfolding encode contents
    memory =
        sym (take-append-drop (data_len p) (drop p.head p.buf))
        ∙ ap (λ c. c ++ drop (data_len p) (drop p.head p.buf)) v.data_is
        ∙ append_assoc (frame m) (encode ms) _
        ∙ append_assoc (header_bytes (length m)) m _

    pub front_len-Live : size < 2 ^ 31 → front_len p ≡ length m
    front_len-Live small =
        ap header_len memory
        ∙ header_len-header_bytes (length m) _
            (omega (arith, data_len-cons, v.valid.within, v.valid.ordered, v.same_len))

    pub front_bytes-Live : take (length m) (drop (p.head + header_size) p.buf) ≡ m
    front_bytes-Live =
        ap (take (length m)) (sym (drop-drop header_size p.head (p.head + header_size) p.buf refl))
        ∙ ap (λ y. take (length m) (drop header_size y)) memory
        ∙ ap (take (length m)) (
            drop-append_exact header_size (header_bytes (length m)) _
              (sym (length-header_bytes (length m))))
        ∙ take-append_exact (length m) m _ refl

    length-frame : header_size + length m ≡ length (frame m)
    length-frame =
        omega (arith, length-append (header_bytes (length m)) m, length-header_bytes (length m))

    dropped :
        (if leb (header_size + length m) (data_len p)
          then drop (header_size + length m) (contents p)
          else contents p)
        ≡ encode ms
    dropped =
        let all : leb (header_size + length m) (data_len p) ≡ true =
          ground (arith, data_len-cons) in
        rw all (
          ap (drop (header_size + length m)) v.data_is
          ∙ unfold encode in drop-append_exact _ (frame m) (encode ms) length-frame)

    pub adjust-Live : size < 2 ^ 31 → Live size (adjust p (header_size + front_len p)) ms
    adjust-Live small =
        let a = adjust_lem p (header_size + length m) v.valid in
        rw (front_len-Live small) (record {
          valid = a.valid;
          at_start = a.at_start;
          same_len = a.same_len ∙ v.same_len;
          data_is = a.bytes ∙ dropped;
        })
