-- ===== src/MsgQueue/Stable.antt =====
-- A message that `msgqueue_peek` of msgqueue.c gave out stays where it is while others are pushed:
-- the sender keeps its pointer between two writes to the socket.
use lmq.Prelude.{
  ℕ, ◌+◌, ◌^◌, ◌<◌, ◌≡◌, sym, ap, subst, ◌∙◌, Bool, true, false, Option, none, some, List, ◌∷◌,
  length,
}
use lmq.Pbuf.{Bytes}
use lmq.Pbuf.Resize.{Allocates}
use lmq.MsgQueue.{
  MsgQueue, Place, Pushed, pbuf_size, header_size, iov_bytes, redo_fuel, seek, at_front, peek,
  push_msg, bytes_at,
}
use lmq.MsgQueue.Rep.{Rep, Holds}
use lmq.MsgQueue.Seek.{at_r, Seeks, seek-redo}
use lmq.MsgQueue.Read.{front_bytes}
use lmq.MsgQueue.Pushing.{Grown, Grows, push_msg-Grows}

abbrev front_place : MsgQueue → Place
front_place q = record { slot = q.pbuf_r; offset = header_size }

-- Where the oldest message of the buffer that is read stands.
bytes_at-front :
    (q : MsgQueue) (msgs : ℕ → List Bytes) (m : Bytes) (ms : List Bytes)
    → Rep q msgs
    → msgs q.pbuf_r ≡ m ∷ ms
    → bytes_at q (front_place q) (length m) ≡ m
bytes_at-front q msgs m ms v e =
    let l = at_r q msgs v in rw l.at_start at ((front_bytes q msgs v m ms e).1)

-- What a successful `msgqueue_peek` gave.
record Given (q' : MsgQueue) (place : Place) (n : ℕ) : Type 0 where
  msgs : ℕ → List Bytes
  rep : Rep q' msgs
  m : Bytes
  ms : List Bytes
  oldest : msgs q'.pbuf_r ≡ m ∷ ms
  place_is : place ≡ front_place q'
  len_is : n ≡ length m

abbrev Gives : Option (MsgQueue × Option (Place × ℕ)) → Type 0
Gives (some (q, some (place, n))) = Given q place n
Gives _ = Unit {0}

at_front-Gives :
    (q : MsgQueue) (msgs : ℕ → List Bytes) (o : Option (MsgQueue × Bool))
    → Seeks q msgs o
    → Gives (at_front o)
unfolding at_front
at_front-Gives q msgs none s = tt
at_front-Gives q msgs (some (q1, false)) s = tt
at_front-Gives q msgs (some (q1, true)) (v, same, (m, ms, f)) =
    let l = at_r q1 msgs v in
    record {
      msgs = msgs;
      rep = v;
      m = m;
      ms = ms;
      oldest = f;
      place_is = ap (λ h. record { slot = q1.pbuf_r; offset = h + header_size }) l.at_start;
      len_is = (front_bytes q1 msgs v m ms f).0;
    }

Given-bytes_at :
    (q' : MsgQueue) (place : Place) (n : ℕ) (g : Given q' place n) → bytes_at q' place n ≡ g.m
Given-bytes_at q' place n g =
    rw (g.place_is, g.len_is) (bytes_at-front q' g.msgs g.m g.ms g.rep g.oldest)

Grown-bytes_at :
    (q' q'' : MsgQueue) (place : Place) (n : ℕ) (g : Given q' place n) (m : Bytes) (s : Pushed)
    → Grown q' g.msgs m q'' s
    → bytes_at q'' place n ≡ g.m
Grown-bytes_at q' q'' place n g m s w =
    let (ys, old) = w.oldest g.m g.ms g.oldest in
    let here : w.msgs' q''.pbuf_r ≡ g.m ∷ ys = ap w.msgs' w.reader ∙ old in
    rw (g.place_is, g.len_is, ← w.reader) (bytes_at-front q'' w.msgs' g.m ys w.rep here)

-- Where `msgqueue_peek` gave the place and the length of a message of a queue, the bytes there are
-- the same after a `msgqueue_push_msg`, whether that accepts its message or not.
pub bytes_at-push_msg :
    (malloc : ℕ → Option Bytes) (q q' q'' : MsgQueue) (xs iov : List Bytes) (place : Place) (n : ℕ)
    (s : Pushed)
    → Holds q xs
    → ((i : ℕ) → Allocates (malloc i) (pbuf_size q'))
    → length (iov_bytes iov) < 2 ^ 31
    → peek q ≡ some (q', some (place, n))
    → push_msg malloc q' iov ≡ some (q'', s)
    → bytes_at q'' place n ≡ bytes_at q' place n
unfolding peek
bytes_at-push_msg malloc q q' q'' xs iov place n s h a small given pushed =
    let g : Given q' place n =
      subst Gives given (at_front-Gives q h.msgs (seek redo_fuel q) (seek-redo q h.msgs h.rep)) in
    let w : Grown q' g.msgs (iov_bytes iov) q'' s =
      subst (Grows q' g.msgs (iov_bytes iov)) pushed
        (push_msg-Grows malloc q' g.msgs iov g.rep a small) in
    Grown-bytes_at q' q'' place n g _ s w ∙ sym (Given-bytes_at q' place n g)
