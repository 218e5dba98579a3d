-- ===== src/Pbuf.antt =====
-- The packet buffers of libsf/sf_pbuf.c and libsf/sf_pbuf.h.
-- `pb_head` and `pb_tail` are offsets from `pb_buf`, whose block is the list of its bytes; the
-- empty list stands for NULL. `pb_release_func` is either NULL or `pbuf_release_buf`, so it is a
-- flag. A block that `malloc` returns is an argument, `none` for NULL: its bytes are arbitrary.
pub mod Inv
pub mod Contents
pub mod Resize
mod Tests
use lmq.Prelude.{
  ℕ, ◌+◌, ◌-◌, Bool, true, false, Option, none, some, List, [], ◌++◌, ltb, leb, ◌==◌, if◌then◌else◌,
  length, take, drop,
}

abbrev pub Bytes : Type 0
Bytes = List ℕ

pub record Pbuf : Type 0 where
  pub len : ℕ
  pub buf : Bytes
  pub head : ℕ
  pub tail : ℕ
  pub owned : Bool

-- How a call ends: with a result, with `return -1`, or with an access outside a block.
pub data Ret {ℓ} (A : Type ℓ) : Type ℓ where
  ok : A → Ret A
  failed : Ret A
  fault : Ret A

abbrev pub small_bufsize : ℕ
small_bufsize = 2048

-- `memcpy(buf + i, bytes, …)`
unfoldable pub write_at : Bytes → ℕ → Bytes → Bytes
write_at xs i ys = take i xs ++ (ys ++ drop (i + length ys) xs)

unfoldable pub sethdr : Bytes → ℕ → Pbuf
sethdr block n = record { len = n; buf = block; head = 0; tail = 0; owned = false }

abbrev pub buffer_len : Pbuf → ℕ
buffer_len p = p.len

abbrev pub data_len : Pbuf → ℕ
data_len p = p.tail - p.head

abbrev pub free_len : Pbuf → ℕ
free_len p = buffer_len p - data_len p

abbrev pub writable_len : Pbuf → ℕ
writable_len p = p.len - p.tail

-- The bytes between head and tail.
unfoldable pub contents : Pbuf → Bytes
contents p = take (data_len p) (drop p.head p.buf)

unfoldable pub relocate : Pbuf → Pbuf
unfolding write_at contents
relocate p = if p.head == 0 then p else record p {
  buf = if ltb 0 (data_len p) then write_at p.buf 0 (contents p) else p.buf;
  head = 0;
  tail = data_len p;
}

unfoldable pub adjust : Pbuf → ℕ → Pbuf
unfolding relocate
adjust p n = relocate (if leb n (data_len p) then record p { head = p.head + n } else p)

-- `sf_pbuf_adjust_tail` with a count that is not negative, and with one that is.
unfoldable pub extend_tail : Pbuf → ℕ → Pbuf
extend_tail p n = record p { tail = p.tail + n }

unfoldable pub retract_tail : Pbuf → ℕ → Pbuf
retract_tail p n = record p { tail = p.tail - n }

-- `none` is `return -1`, before anything is changed.
unfoldable pub write_prepare : Pbuf → ℕ → Option Pbuf
unfolding relocate
write_prepare p n =
    if ltb (free_len p) n then none else some (if ltb (writable_len p) n then relocate p else p)

unfoldable pub store : Pbuf → Bytes → Pbuf
unfolding write_at
store p bytes = record p { buf = write_at p.buf p.tail bytes; tail = p.tail + length bytes }

unfoldable pub write : Pbuf → Bytes → Option Pbuf
unfolding write_prepare store
write p bytes = elim (write_prepare p (length bytes)) [
  | none ↦ none
  | some q ↦ some (store q bytes)
]

-- The header over a block that holds a copy of the first `data_len` bytes of the old one.
filled : Bytes → ℕ → Bytes → Pbuf
unfolding sethdr write_at
filled block n bytes = record (sethdr (write_at block 0 bytes) n) {
  tail = length bytes;
  owned = true;
}

-- `malloc(len)` is asked for only if `len` is positive. `bytes` are the bytes to copy; they
-- overrun the block if there are more than `len` of them.
unfoldable pub init_with_data : Option Bytes → ℕ → Bytes → Ret Pbuf
unfolding filled
init_with_data block n bytes =
    if ltb 0 n
    then elim block [
      | none ↦ failed
      | some b ↦ if ltb n (length bytes) then fault else ok (filled b n bytes)
    ]
    else if ltb 0 (length bytes)
    then fault
    else ok (filled [] n bytes)

unfoldable pub init : Option Bytes → ℕ → Ret Pbuf
unfolding init_with_data
init block n = init_with_data block n []

-- Copies from `pb_buf`, not from `pb_head`.
unfoldable pub resize : Option Bytes → Pbuf → ℕ → Ret Pbuf
unfolding init_with_data
resize block p n = init_with_data block n (take (data_len p) p.buf)

unfoldable pub init_small : Bytes → Pbuf
unfolding sethdr
init_small small = sethdr small small_bufsize

unfoldable pub release : Pbuf → Pbuf
unfolding sethdr
release p = sethdr [] 0

-- Whether `pbuf_release` frees a block.
unfoldable pub frees : Pbuf → Bool
frees p = if p.owned then ltb 0 (length p.buf) else false
