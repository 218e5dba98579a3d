-- ===== src/MsgQueue/Read.antt =====
-- `msgqueue_peek` and `msgqueue_pop_msg` of msgqueue.c: the oldest message, and the queue without it.
use lmq.Prelude.{
  ℕ, zero, suc, ◌+◌, ◌%◌, ◌<◌, ◌≡◌, refl, sym, ap, ◌∙◌, Bool, true, false, Option, none, some, List,
  [], ◌∷◌, ◌++◌, ◌==◌, arith, length, take, drop,
}
use lmq.Pbuf.{Bytes}
use lmq.MsgQueue.{
  MsgQueue, Place, pbuf_at, pbuf_size, pbufs_count, header_size, seek, redo_fuel, at_front,
  without_front, peek, drop_front, pop_msg, bytes_at, front_len,
}
use lmq.MsgQueue.Live.{front_len-Live, front_bytes-Live, adjust-Live}
use lmq.MsgQueue.Update.{update, Rep-with, walk-update_far}
use lmq.MsgQueue.Seek.{at_r, Seeks, seek-redo}
use lmq.MsgQueue.Rep.{span, Live, Rep, walk, Holds}

-- The walk from a buffer with a front message, and the walk without that message.
walk_front :
    (msgs : ℕ → List Bytes) (n i : ℕ) (m : Bytes) (rest : List Bytes)
    → i < pbufs_count
    → n < pbufs_count
    → msgs i ≡ m ∷ rest
    → walk msgs n i ≡ m ∷ walk (update msgs i rest) n i
unfolding walk
walk_front msgs zero i m rest hi hn e = let self : (i == i) ≡ true = ground arith in rw (self, e)
walk_front msgs (suc n) i m rest hi hn e =
    let self : (i == i) ≡ true = ground arith in
    rw (self, e)
      (ap (λ w. m ∷ (rest ++ w))
        (sym
          (walk-update_far msgs i rest n ((i + 1) % pbufs_count) (omega arith) hi (omega arith))))

-- What `msgqueue_peek` gives for a queue that holds `xs`.
abbrev pub Peeks : List Bytes → Option (MsgQueue × Option (Place × ℕ)) → Type 0
Peeks xs none = ⊥
Peeks xs (some (q, none)) = (xs ≡ []) × Holds q xs
Peeks xs (some (q, some (place, n))) =
    (m : Bytes) × (rest : List Bytes) × (xs ≡ m ∷ rest)
    × (n ≡ length m)
    × (bytes_at q place n ≡ m)
    × Holds q xs

-- What `msgqueue_pop_msg` gives for a queue that holds `xs`.
abbrev pub Pops : List Bytes → Option (MsgQueue × Bool) → Type 0
Pops xs none = ⊥
Pops xs (some (q, false)) = (xs ≡ []) × Holds q xs
Pops xs (some (q, true)) = (m : Bytes) × (rest : List Bytes) × (xs ≡ m ∷ rest) × Holds q rest

module _ (q' : MsgQueue) (msgs : ℕ → List Bytes) (v : Rep q' msgs) (m : Bytes) (ms : List Bytes)
    (e : msgs q'.pbuf_r ≡ m ∷ ms) where
  front_is : walk msgs (span q') q'.pbuf_r ≡ m ∷ walk (update msgs q'.pbuf_r ms) (span q') q'.pbuf_r
  front_is = walk_front msgs (span q') q'.pbuf_r m ms v.r_in (omega (arith, v.r_in)) e

  first : Live (pbuf_size q') (pbuf_at q' q'.pbuf_r) (m ∷ ms)
  first = rw e at (at_r q' msgs v)

  pub front_bytes :
      (front_len (pbuf_at q' q'.pbuf_r) ≡ length m)
      × (take
            (length m)
            (drop ((pbuf_at q' q'.pbuf_r).head + header_size) (pbuf_at q' q'.pbuf_r).buf)
          ≡ m)
  front_bytes = (front_len-Live m ms first v.int_size, front_bytes-Live m ms first)

  drop_front-Holds : Holds (drop_front q') (walk (update msgs q'.pbuf_r ms) (span q') q'.pbuf_r)
  unfolding drop_front
  drop_front-Holds = record {
    msgs = update msgs q'.pbuf_r ms;
    rep =
        Rep-with q' msgs v q'.pbuf_r _ ms v.r_in (omega (arith, v.r_in))
          (adjust-Live m ms first v.int_size);
    order = refl;
  }

walk_end : (msgs : ℕ → List Bytes) (n i : ℕ) → msgs i ≡ [] → n ≡ 0 → walk msgs n i ≡ []
unfolding walk
walk_end msgs zero i e z = e
walk_end msgs (suc n) i e z = absurd (omega arith)

ended :
    (q' : MsgQueue) (msgs : ℕ → List Bytes)
    → Rep q' msgs
    → (xs : List Bytes) → msgs q'.pbuf_r ≡ []
    → span q' ≡ 0
    → walk msgs (span q') q'.pbuf_r ≡ xs
    → (xs ≡ []) × Holds q' xs
ended q' msgs v xs e z o =
    (sym o ∙ walk_end msgs (span q') q'.pbuf_r e z, record { msgs = msgs; rep = v; order = o })

at_front-Peeks :
    (q : MsgQueue) (msgs : ℕ → List Bytes) (xs : List Bytes) (o : Option (MsgQueue × Bool))
    → walk msgs (span q) q.pbuf_r ≡ xs
    → Seeks q msgs o
    → Peeks xs (at_front o)
unfolding at_front
at_front-Peeks q msgs xs none e s = s
at_front-Peeks q msgs xs (some (q', false)) e (v, same, f) =
    ended q' msgs v xs f.0 f.1 (sym same ∙ e)
at_front-Peeks q msgs xs (some (q', true)) e (v, same, (m, ms, f)) =
    let b = front_bytes q' msgs v m ms f in
    (
      m,
      walk (update msgs q'.pbuf_r ms) (span q') q'.pbuf_r,
      sym e ∙ same ∙ front_is q' msgs v m ms f,
      b.0,
      rw b.0 b.1,
      record { msgs = msgs; rep = v; order = sym same ∙ e },
    )

without_front-Pops :
    (q : MsgQueue) (msgs : ℕ → List Bytes) (xs : List Bytes) (o : Option (MsgQueue × Bool))
    → walk msgs (span q) q.pbuf_r ≡ xs
    → Seeks q msgs o
    → Pops xs (without_front o)
unfolding without_front
without_front-Pops q msgs xs none e s = s
without_front-Pops q msgs xs (some (q', false)) e (v, same, f) =
    ended q' msgs v xs f.0 f.1 (sym same ∙ e)
without_front-Pops q msgs xs (some (q', true)) e (v, same, (m, ms, f)) = (
  m,
  walk (update msgs q'.pbuf_r ms) (span q') q'.pbuf_r,
  sym e ∙ same ∙ front_is q' msgs v m ms f,
  drop_front-Holds q' msgs v m ms f,
)

-- On a queue that holds the messages `xs`, `msgqueue_peek` ends, keeps the messages, fails exactly
-- if there are none, and otherwise gives the place and the length of the oldest one, whose bytes
-- are there.
pub peek-Peeks : (q : MsgQueue) (xs : List Bytes) → Holds q xs → Peeks xs (peek q)
unfolding peek
peek-Peeks q xs h = at_front-Peeks q h.msgs xs (seek redo_fuel q) h.order (seek-redo q h.msgs h.rep)

-- On a queue that holds the messages `xs`, `msgqueue_pop_msg` ends, fails exactly if there are
-- none, and otherwise removes the oldest one and keeps the others in order.
pub pop_msg-Pops : (q : MsgQueue) (xs : List Bytes) → Holds q xs → Pops xs (pop_msg q)
unfolding pop_msg
pop_msg-Pops q xs h =
    without_front-Pops q h.msgs xs (seek redo_fuel q) h.order (seek-redo q h.msgs h.rep)
