-- ===== src/MsgQueue/Seek.antt =====
-- The search for the oldest message in msgqueue.c, the `redo` loops of `msgqueue_peek` and of
-- `msgqueue_pop_msg`, and that its fuel is enough.
use lmq.Prelude.{
  ℕ, zero, suc, ◌+◌, ◌%◌, ◌<◌, ◌≡◌, ◌≢◌, refl, ◌∙◌, inl, inr, Bool, true, false, Option, none, some,
  List, [], ◌∷◌, ltb, ◌==◌, Bool-cases, List-cases, arith, length-set, set, get_or-set_self,
  get_or-set_ne,
}
use lmq.Pbuf.{Bytes, data_len, release}
use lmq.MsgQueue.{MsgQueue, pbuf_at, pbuf_size, pbufs_count, header_size, rnext, seek, redo_fuel}
use lmq.MsgQueue.Live.{Live-short, Live-found}
use lmq.MsgQueue.Rep.{ahead, span, Live, Rep, walk}

advance : MsgQueue → MsgQueue
advance q = record q {
  pbufs = set q.pbufs q.pbuf_r (release (pbuf_at q q.pbuf_r));
  pbuf_r = (q.pbuf_r + 1) % pbufs_count;
}

module _ (q : MsgQueue) (msgs : ℕ → List Bytes) (v : Rep q msgs) where
  pub at_r : Live (pbuf_size q) (pbuf_at q q.pbuf_r) (msgs q.pbuf_r)
  at_r = v.live q.pbuf_r v.r_in (omega (arith, v.r_in))

  span-advance : q.pbuf_r ≢ q.pbuf_w → span q ≡ suc (span (advance q))
  unfolding advance
  span-advance ne = omega (arith, v.r_in, v.w_in)

  advance-Rep : q.pbuf_r ≢ q.pbuf_w → Rep (advance q) msgs
  unfolding advance release
  advance-Rep ne = record {
    count = length-set q.pbufs _ _ ∙ v.count;
    r_in = omega arith;
    w_in = v.w_in;
    some_size = v.some_size;
    int_size = v.int_size;
    live = λ i h k.
        rw (get_or-set_ne q.pbufs q.pbuf_r i _ _ (omega (arith, v.r_in, v.w_in)))
          (v.live i h (omega (arith, v.r_in, v.w_in)));
    dead = λ i h k. released i h k;
  }
    where
      released :
          (i : ℕ)
          → i < pbufs_count
          → span (advance q) < ahead (advance q) i
          → (pbuf_at (advance q) i).len ≡ 0
      released i h k = elim (Bool-cases (q.pbuf_r == i)) [
        | inl e ↦
            let e' : q.pbuf_r ≡ i = ground arith in
            rw (← e') (rw (get_or-set_self q.pbufs q.pbuf_r _ _ (omega (arith, v.r_in, v.count))))
        | inr e ↦
            rw (get_or-set_ne q.pbufs q.pbuf_r i _ _ (ground arith))
              (v.dead i h (ground (arith, v.r_in, v.w_in)))
      ]

  -- Where the oldest buffer has no message left, the queue's messages are those of the others.
  walk-advance :
      q.pbuf_r ≢ q.pbuf_w
      → msgs q.pbuf_r ≡ []
      → walk msgs (span q) q.pbuf_r ≡ walk msgs (span (advance q)) (advance q).pbuf_r
  unfolding walk advance
  walk-advance ne e = rw (span-advance ne, e)

-- Whether there is a message in the buffer that is read, and no other buffer if there is not.
abbrev pub Found : Bool → List Bytes → ℕ → Type 0
Found true ms n = (m : Bytes) × (rest : List Bytes) × (ms ≡ m ∷ rest)
Found false ms n = (ms ≡ []) × (n ≡ 0)

-- What the search for a message leaves: the same messages, and the reader at the oldest of them.
abbrev pub Seeks : MsgQueue → (ℕ → List Bytes) → Option (MsgQueue × Bool) → Type 0
Seeks q msgs none = ⊥
Seeks q msgs (some (q', found)) =
    Rep q' msgs
    × (walk msgs (span q) q.pbuf_r ≡ walk msgs (span q') q'.pbuf_r)
    × Found found (msgs q'.pbuf_r) (span q')

module _ (f : ℕ) (q : MsgQueue) where
  seek_found :
      ltb (data_len (pbuf_at q q.pbuf_r)) header_size ≡ false → seek (suc f) q ≡ some (q, true)
  unfolding seek
  seek_found h = ground arith

  seek_end :
      ltb (data_len (pbuf_at q q.pbuf_r)) header_size ≡ true
      → (q.pbuf_r == q.pbuf_w) ≡ true
      → seek (suc f) q ≡ some (q, false)
  unfolding seek rnext
  seek_end h e = ground arith

  seek_next :
      ltb (data_len (pbuf_at q q.pbuf_r)) header_size ≡ true
      → (q.pbuf_r == q.pbuf_w) ≡ false
      → seek (suc f) q ≡ seek f (advance q)
  unfolding seek rnext advance
  seek_next h e = ground arith

Seeks-advance :
    (q : MsgQueue) (msgs : ℕ → List Bytes) (o : Option (MsgQueue × Bool))
    → walk msgs (span q) q.pbuf_r ≡ walk msgs (span (advance q)) (advance q).pbuf_r
    → Seeks (advance q) msgs o
    → Seeks q msgs o
Seeks-advance q msgs none e s = s
Seeks-advance q msgs (some (q', found)) e s = (s.0, e ∙ s.1, s.2)

seek-Seeks :
    (f : ℕ) (q : MsgQueue) (msgs : ℕ → List Bytes)
    → Rep q msgs
    → span q < f
    → Seeks q msgs (seek f q)
seek-Seeks zero q msgs v fuel = absurd (omega arith)
seek-Seeks (suc f) q msgs v fuel = elim (List-cases (msgs q.pbuf_r)) [
  | inr (m, ms, e) ↦
      rw (seek_found f q (Live-found m ms (rw e at (at_r q msgs v)))) (v, refl, (m, ms, e))
  | inl e ↦ elim (Bool-cases (q.pbuf_r == q.pbuf_w)) [
    | inl done ↦
        rw (seek_end f q (Live-short (rw e at (at_r q msgs v))) done) (v, refl, (e, ground arith))
    | inr more ↦
        let ne : q.pbuf_r ≢ q.pbuf_w = ground arith in
        rw (seek_next f q (Live-short (rw e at (at_r q msgs v))) more) (
          Seeks-advance q msgs _ (walk-advance q msgs v ne e) (
            seek-Seeks f (advance q) msgs (advance-Rep q msgs v ne)
              (omega (arith, span-advance q msgs v ne))))
  ]
]

pub seek-redo :
    (q : MsgQueue) (msgs : ℕ → List Bytes) → Rep q msgs → Seeks q msgs (seek redo_fuel q)
seek-redo q msgs v = seek-Seeks redo_fuel q msgs v (omega (arith, v.r_in))
