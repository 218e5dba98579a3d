-- ===== src/MsgQueue/Next.antt =====
-- `msgqueue_wnext` of msgqueue.c: one more buffer in use, and the same messages.
use lmq.Prelude.{
  ℕ, suc, ◌+◌, ◌%◌, ◌≤◌, ◌<◌, ◌≡◌, ◌≢◌, refl, sym, ap, ◌∙◌, inl, inr, true, false, Option, none,
  some, List, [], ltb, ◌==◌, Bool-cases, arith, length-set, set, get_or-set_self, get_or-set_ne,
}
use lmq.Pbuf.{Pbuf, Bytes, Ret, ok, failed, fault, init}
use lmq.Pbuf.Resize.{Allocates, Inits, init_lem}
use lmq.MsgQueue.{MsgQueue, pbuf_at, pbuf_size, pbufs_count, with_next, wnext}
use lmq.MsgQueue.Frames.{encode}
use lmq.MsgQueue.Update.{update, walk-extend}
use lmq.MsgQueue.Rep.{ahead, span, Live, Rep, walk}

-- The same messages in a queue whose other fields are those of `q`.
pub record Same (q : MsgQueue) (msgs : ℕ → List Bytes) (q' : MsgQueue) (msgs' : ℕ → List Bytes)
    : Type 0 where
  pub rep : Rep q' msgs'
  pub order : walk msgs' (span q') q'.pbuf_r ≡ walk msgs (span q) q.pbuf_r
  pub oldest : msgs' q.pbuf_r ≡ msgs q.pbuf_r
  pub reader : q'.pbuf_r ≡ q.pbuf_r
  pub size : q'.queue_total_size ≡ q.queue_total_size
  pub callback : q'.callback ≡ q.callback

pub Same-trans :
    {q q' q'' : MsgQueue} {msgs msgs' msgs'' : ℕ → List Bytes}
    → Same q msgs q' msgs'
    → Same q' msgs' q'' msgs''
    → Same q msgs q'' msgs''
Same-trans {msgs'} {msgs''} s t = record {
  rep = t.rep;
  order = t.order ∙ s.order;
  oldest = ap msgs'' (sym s.reader) ∙ t.oldest ∙ ap msgs' s.reader ∙ s.oldest;
  reader = t.reader ∙ s.reader;
  size = t.size ∙ s.size;
  callback = t.callback ∙ s.callback;
}

abbrev pub next : MsgQueue → ℕ
next q = (q.pbuf_w + 1) % pbufs_count

abbrev pub with_block : MsgQueue → Pbuf → MsgQueue
with_block q p = record q { pbufs = set q.pbufs (next q) p; pbuf_w = next q }

-- What `msgqueue_wnext` gives: the same messages, and one more buffer in use.
abbrev pub Nexts : MsgQueue → (ℕ → List Bytes) → Option MsgQueue → Type 0
Nexts q msgs none = Unit {0}
Nexts q msgs (some q') = (msgs' : ℕ → List Bytes) × Same q msgs q' msgs' × (span q' ≡ suc (span q))

module _ (q : MsgQueue) (msgs : ℕ → List Bytes) (v : Rep q msgs) where
  next_in : next q < pbufs_count
  next_in = omega arith

  -- A buffer with no block is not in use.
  unused : (pbuf_at q (next q)).len ≡ 0 → span q < 3
  unused z = elim (Bool-cases (ltb (span q) 3)) [
    | inl h ↦ ground arith
    | inr h ↦ absurd (
        omega
          (arith, (v.live (next q) next_in (ground (arith, v.r_in, v.w_in))).same_len, v.some_size))
  ]

  module _ (p : Pbuf) (short : span q < 3) (l : Live (pbuf_size q) p []) where
    span-with_block : span (with_block q p) ≡ suc (span q)
    span-with_block = omega (arith, v.r_in, v.w_in)

    Live-with_block :
        (i : ℕ)
        → i < pbufs_count
        → ahead q i ≤ suc (span q)
        → Live (pbuf_size q) (pbuf_at (with_block q p) i) (update msgs (next q) [] i)
    Live-with_block i h k = elim (Bool-cases (next q == i)) [
      | inl e ↦
          let e' : next q ≡ i = ground arith in
          rw
            (
              e,
              ← e',
              get_or-set_self q.pbufs (next q) p
                  (record { len = 0; buf = []; head = 0; tail = 0; owned = false })
                  (omega (arith, next_in, v.count)),
            )
            l
      | inr e ↦
          let ne : next q ≢ i = ground arith in
          rw
            (
              e,
              get_or-set_ne q.pbufs (next q) i p
                  (record { len = 0; buf = []; head = 0; tail = 0; owned = false }) ne,
            )
            (v.live i h (omega (arith, v.r_in, v.w_in)))
    ]

    with_block-Same : Same q msgs (with_block q p) (update msgs (next q) [])
    with_block-Same = record {
      rep = record {
        count = length-set q.pbufs (next q) p ∙ v.count;
        r_in = v.r_in;
        w_in = next_in;
        some_size = v.some_size;
        int_size = v.int_size;
        live = λ i h k. Live-with_block i h (omega (arith, span-with_block));
        dead = λ i h k.
            rw
              (get_or-set_ne q.pbufs (next q) i p
                (record { len = 0; buf = []; head = 0; tail = 0; owned = false })
                (omega (arith, v.r_in, v.w_in)))
              (v.dead i h (omega (arith, span-with_block)));
      };
      order = rw span-with_block (
          walk-extend msgs (next q) (span q) q.pbuf_r v.r_in next_in
            (omega (arith, v.r_in, v.w_in)));
      oldest = let ne : (next q == q.pbuf_r) ≡ false = ground (arith, v.r_in, v.w_in) in rw ne;
      reader = refl;
      size = refl;
      callback = refl;
    }

  with_next-Nexts :
      (block : Option Bytes) (r : Ret Pbuf)
      → span q < 3
      → Inits block (pbuf_size q) [] r
      → Nexts q msgs (with_next q (next q) r)
  unfolding with_next encode
  with_next-Nexts block (ok p) short i =
      let l : Live (pbuf_size q) p [] = record {
        valid = i.0;
        at_start = i.2;
        same_len = i.1;
        data_is = i.3;
      } in
      (update msgs (next q) [], with_block-Same p short l, span-with_block p short l)
  with_next-Nexts block failed short i = tt
  with_next-Nexts block fault short i = tt

module _ (malloc : ℕ → Option Bytes) (q : MsgQueue) where
  pub wnext_taken : ((pbuf_at q (next q)).len == 0) ≡ false → wnext malloc q ≡ none
  unfolding wnext
  wnext_taken h = ground arith

  wnext_free :
      ((pbuf_at q (next q)).len == 0) ≡ true
      → wnext malloc q ≡ with_next q (next q) (init (malloc (next q)) (pbuf_size q))
  unfolding wnext
  wnext_free h = ground arith

  pub wnext-Nexts :
      (msgs : ℕ → List Bytes)
      → Rep q msgs
      → Allocates (malloc (next q)) (pbuf_size q)
      → Nexts q msgs (wnext malloc q)
  wnext-Nexts msgs v a = elim (Bool-cases ((pbuf_at q (next q)).len == 0)) [
    | inr taken ↦ rw (wnext_taken taken) tt
    | inl free ↦ rw (wnext_free free) (
        with_next-Nexts q msgs v _ _ (unused q msgs v (ground arith))
          (init_lem (malloc (next q)) (pbuf_size q) a))
  ]
