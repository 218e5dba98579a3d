-- ===== src/MsgQueue/Pushing.antt =====
-- `msgqueue_push_msg` of msgqueue.c: a message at the end of the queue, or no change.
use lmq.Prelude.{
  ℕ, ◌+◌, ◌^◌, ◌≤◌, ◌<◌, ◌≡◌, refl, sym, ap, subst, ◌∙◌, inl, inr, Bool, true, false, Option, none,
  some, List, [], ◌∷◌, ◌++◌, ◌==◌, append-nil, Bool-cases, arith, length, length-append,
}
use lmq.Pbuf.{Bytes, free_len}
use lmq.Pbuf.Resize.{Allocates}
use lmq.MsgQueue.{
  MsgQueue, Pushed, rejected, accepted, pbuf_size, header_size, header_bytes, iov_bytes, total_len,
  too_big, redo_fuel, make_room, store_msg, push_from, push_msg,
}
use lmq.MsgQueue.Frames.{length-header_bytes}
use lmq.MsgQueue.Rep.{span, Rep, walk, Holds}
use lmq.MsgQueue.Next.{Same}
use lmq.MsgQueue.Room.{Rooms, pbuf_w_of, at_w, Same-refl, make_room-redo}
use lmq.MsgQueue.Update.{update, Rep-with, walk-update_last}
use lmq.MsgQueue.Write.{Filled-Live, total_len-iov_bytes, write_all-Filled}

abbrev pub added : Pushed → Bytes → List Bytes
added rejected m = []
added (accepted _) m = m ∷ []

abbrev pub Calls : Pushed → Option ℕ → Type 0
Calls rejected callback = Unit {0}
Calls (accepted called) callback = called ≡ callback

-- Where there was an oldest message in the buffer that is read, it still is the oldest there.
abbrev pub Keeps : List Bytes → List Bytes → Type 0
Keeps old new = (x : Bytes) (xs : List Bytes) → old ≡ x ∷ xs → (ys : List Bytes) × (new ≡ x ∷ ys)

pub record Grown (q : MsgQueue) (msgs : ℕ → List Bytes) (m : Bytes) (q' : MsgQueue) (s : Pushed)
    : Type 0 where
  pub msgs' : ℕ → List Bytes
  pub rep : Rep q' msgs'
  pub order : walk msgs' (span q') q'.pbuf_r ≡ walk msgs (span q) q.pbuf_r ++ added s m
  pub reader : q'.pbuf_r ≡ q.pbuf_r
  pub oldest : Keeps (msgs q.pbuf_r) (msgs' q.pbuf_r)
  pub calls : Calls s q.callback

abbrev pub Grows : MsgQueue → (ℕ → List Bytes) → Bytes → Option (MsgQueue × Pushed) → Type 0
Grows q msgs m none = ⊥
Grows q msgs m (some (q', s)) = Grown q msgs m q' s

Keeps-append : (xs new : List Bytes) → Keeps xs (xs ++ new)
Keeps-append xs new x rest e = (rest ++ new, rw e)

module _ (q : MsgQueue) (msgs : ℕ → List Bytes) (v : Rep q msgs) (iov : List Bytes) where
  Keeps-update :
      Keeps (msgs q.pbuf_r) (update msgs q.pbuf_w (msgs q.pbuf_w ++ iov_bytes iov ∷ []) q.pbuf_r)
  Keeps-update = elim (Bool-cases (q.pbuf_w == q.pbuf_r)) [
    | inl e ↦
        let e' : q.pbuf_w ≡ q.pbuf_r = ground arith in
        rw (e, e') (Keeps-append (msgs q.pbuf_r) (iov_bytes iov ∷ []))
    | inr e ↦ rw e (λ x xs h. (xs, h))
  ]

  store_msg-Grown :
      header_size + length (iov_bytes iov) ≤ free_len (pbuf_w_of q)
      → Grows q msgs (iov_bytes iov) (some (store_msg q (length (iov_bytes iov)) iov))
  unfolding store_msg
  store_msg-Grown room =
      let n = length (iov_bytes iov) in
      let l = at_w q msgs v in
      let (p', e, f) =
        write_all-Filled (header_bytes n ∷ iov) (pbuf_w_of q) l.valid l.at_start
          (omega (arith, length-append (header_bytes n) (iov_bytes iov), length-header_bytes n)) in
      rw e (record {
        msgs' = update msgs q.pbuf_w (msgs q.pbuf_w ++ iov_bytes iov ∷ []);
        rep =
            Rep-with q msgs v q.pbuf_w p' _ v.w_in (omega arith)
              (Filled-Live (pbuf_size q) _ p' (msgs q.pbuf_w) (iov_bytes iov) l f);
        order = walk-update_last msgs q.pbuf_w _ (span q) q.pbuf_r v.r_in v.w_in refl;
        reader = refl;
        oldest = Keeps-update;
        calls = refl;
      })

rejected-Grown :
    (q q' : MsgQueue) (msgs msgs' : ℕ → List Bytes) (m : Bytes)
    → Same q msgs q' msgs'
    → Grown q msgs m q' rejected
rejected-Grown q q' msgs msgs' m s = record {
  msgs' = msgs';
  rep = s.rep;
  order = s.order ∙ sym (append-nil (walk msgs (span q) q.pbuf_r));
  reader = s.reader;
  oldest = λ x xs e. (xs, s.oldest ∙ e);
  calls = tt;
}

Grown-Same :
    (q q' q'' : MsgQueue) (msgs msgs' : ℕ → List Bytes) (m : Bytes) (o : Pushed)
    → Same q msgs q' msgs'
    → Grown q' msgs' m q'' o
    → Grown q msgs m q'' o
Grown-Same q q' q'' msgs msgs' m o s g = record {
  msgs' = g.msgs';
  rep = g.rep;
  order = g.order ∙ ap (λ w. w ++ added o m) s.order;
  reader = g.reader ∙ s.reader;
  oldest = λ x xs e.
      let (ys, k) = g.oldest x xs (ap msgs' s.reader ∙ s.oldest ∙ e) in
      (ys, ap g.msgs' (sym s.reader) ∙ k);
  calls = subst (Calls o) s.callback g.calls;
}

push_from-Grows :
    (q : MsgQueue) (msgs : ℕ → List Bytes) (iov : List Bytes) (o : Option (MsgQueue × Bool))
    → Rooms q msgs (header_size + length (iov_bytes iov)) o
    → Grows q msgs (iov_bytes iov) (push_from (length (iov_bytes iov)) iov o)
unfolding push_from
push_from-Grows q msgs iov none r = r
push_from-Grows q msgs iov (some (q', true)) (msgs', s, room) =
    Grown-Same q q' _ msgs msgs' _ _ s (store_msg-Grown q' msgs' s.rep iov (room refl))
push_from-Grows q msgs iov (some (q', false)) (msgs', s, room) = rejected-Grown q q' msgs msgs' _ s

push_too_big :
    (malloc : ℕ → Option Bytes) (q : MsgQueue) (iov : List Bytes)
    → too_big q (total_len iov) ≡ true
    → push_msg malloc q iov ≡ some (q, rejected)
unfolding push_msg
push_too_big malloc q iov e = ground arith

pub push_sized :
    (malloc : ℕ → Option Bytes) (q : MsgQueue) (iov : List Bytes)
    → too_big q (total_len iov) ≡ false
    → push_msg malloc q iov
      ≡ push_from (total_len iov) iov (make_room redo_fuel malloc q (header_size + total_len iov))
unfolding push_msg
push_sized malloc q iov e = ground arith

pub push_msg-Grows :
    (malloc : ℕ → Option Bytes) (q : MsgQueue) (msgs : ℕ → List Bytes) (iov : List Bytes)
    → Rep q msgs
    → ((i : ℕ) → Allocates (malloc i) (pbuf_size q))
    → length (iov_bytes iov) < 2 ^ 31
    → Grows q msgs (iov_bytes iov) (push_msg malloc q iov)
push_msg-Grows malloc q msgs iov v a small = elim (Bool-cases (too_big q (total_len iov))) [
  | inl big ↦
      rw (push_too_big malloc q iov big) (rejected-Grown q q msgs msgs _ (Same-refl q msgs v))
  | inr fits ↦ rw (push_sized malloc q iov fits) (
      rw (total_len-iov_bytes iov (omega arith)) (
        push_from-Grows q msgs iov _
          (make_room-redo malloc q msgs (header_size + length (iov_bytes iov)) v a)))
]

-- What `msgqueue_push_msg` of the message `m` gives for a queue that holds `xs` and has this
-- callback.
abbrev pub Pushes : List Bytes → Bytes → Option ℕ → Option (MsgQueue × Pushed) → Type 0
Pushes xs m callback none = ⊥
Pushes xs m callback (some (q', rejected)) = Holds q' xs
Pushes xs m callback (some (q', accepted called)) = Holds q' (xs ++ m ∷ []) × (called ≡ callback)

Grows-Pushes :
    (q : MsgQueue) (xs : List Bytes) (m : Bytes) (h : Holds q xs) (o : Option (MsgQueue × Pushed))
    → Grows q h.msgs m o
    → Pushes xs m q.callback o
Grows-Pushes q xs m h none g = g
Grows-Pushes q xs m h (some (q', rejected)) g = record {
  msgs = g.msgs';
  rep = g.rep;
  order = g.order ∙ append-nil _ ∙ h.order;
}
Grows-Pushes q xs m h (some (q', accepted called)) g = (
  record { msgs = g.msgs'; rep = g.rep; order = g.order ∙ ap (λ w. w ++ m ∷ []) h.order },
  g.calls,
)

-- On a queue that holds the messages `xs`, and whatever `malloc` returns for its buffers,
-- `msgqueue_push_msg` of fewer than 2^31 bytes ends, and either accepts the message, which then is
-- the newest one behind `xs`, and makes the callback, or rejects it and keeps the messages `xs`.
pub push_msg-Pushes :
    (malloc : ℕ → Option Bytes) (q : MsgQueue) (xs : List Bytes) (iov : List Bytes)
    → Holds q xs
    → ((i : ℕ) → Allocates (malloc i) (pbuf_size q))
    → length (iov_bytes iov) < 2 ^ 31
    → Pushes xs (iov_bytes iov) q.callback (push_msg malloc q iov)
push_msg-Pushes malloc q xs iov h a small =
    Grows-Pushes q xs _ h _ (push_msg-Grows malloc q h.msgs iov h.rep a small)
