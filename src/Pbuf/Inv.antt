-- ===== src/Pbuf/Inv.antt =====
-- The invariant of a packet buffer of sf_pbuf.c, and the operations that keep it.
use lmq.Prelude.{
  ℕ, ◌+◌, ◌≤◌, ◌≡◌, arith, length, length-append, length-take, length-drop, take, drop,
}
use lmq.Pbuf.{Pbuf, Bytes, write_at, contents, data_len, relocate}

-- The offsets lie in order inside the block, and `pb_len` is the block's size.
pub record IsValid (p : Pbuf) : Type 0 where
  pub block : length p.buf ≡ p.len
  pub ordered : p.head ≤ p.tail
  pub within : p.tail ≤ p.len

pub length-write_at :
    (xs : Bytes) (i : ℕ) (ys : Bytes)
    → i + length ys ≤ length xs
    → length (write_at xs i ys) ≡ length xs
unfolding write_at
length-write_at xs i ys h = omega (
  arith,
  length-append (take i xs) _,
  length-append ys (drop (i + length ys) xs),
  length-take i xs,
  length-drop (i + length ys) xs,
)

module _ (p : Pbuf) (v : IsValid p) where
  pub length-contents : length (contents p) ≡ data_len p
  unfolding contents
  length-contents = omega (
    arith,
    v.block,
    v.ordered,
    v.within,
    length-take (data_len p) (drop p.head p.buf),
    length-drop p.head p.buf,
  )

  pub relocate-IsValid : IsValid (relocate p)
  unfolding relocate contents
  relocate-IsValid =
      ground
        (arith, length-contents, length-write_at p.buf 0 (contents p), v.block, v.ordered, v.within)

  pub relocate_fields :
      ((relocate p).head ≡ 0)
      × ((relocate p).tail ≡ data_len p)
      × ((relocate p).len ≡ p.len)
      × ((relocate p).owned ≡ p.owned)
  unfolding relocate
  relocate_fields = ground arith
