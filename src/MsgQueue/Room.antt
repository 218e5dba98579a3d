-- ===== src/MsgQueue/Room.antt =====
-- The search of `msgqueue_push_msg` in msgqueue.c for a buffer with room, and that its fuel is
-- enough.
use lmq.Prelude.{
  ℕ, zero, suc, ◌+◌, ◌/◌, ◌≤◌, ◌<◌, ◌≡◌, refl, sym, subst, inl, inr, Bool, true, false, Option,
  none, some, List, [], ltb, Bool-cases, Option-cases, arith, set-get_or,
}
use lmq.Pbuf.{Pbuf, Bytes, free_len}
use lmq.Pbuf.Contents.{write_prepare_room, write_prepare_full}
use lmq.Pbuf.Resize.{Allocates}
use lmq.MsgQueue.{MsgQueue, pbuf_at, pbuf_size, pbufs_count, redo_fuel, wnext, make_room}
use lmq.MsgQueue.Rep.{span, Live, Rep}
use lmq.MsgQueue.Next.{Same, Same-trans, next, wnext-Nexts}

abbrev pub pbuf_w_of : MsgQueue → Pbuf
pbuf_w_of q = pbuf_at q q.pbuf_w

-- What the search leaves: the same messages, and room for `n` bytes where it says so.
abbrev pub Rooms : MsgQueue → (ℕ → List Bytes) → ℕ → Option (MsgQueue × Bool) → Type 0
Rooms q msgs n none = ⊥
Rooms q msgs n (some (q', room)) =
    (msgs' : ℕ → List Bytes) × Same q msgs q' msgs' × (room ≡ true → n ≤ free_len (pbuf_w_of q'))

Rooms-next :
    (q q' : MsgQueue) (msgs msgs' : ℕ → List Bytes) (n : ℕ) (o : Option (MsgQueue × Bool))
    → Same q msgs q' msgs'
    → Rooms q' msgs' n o
    → Rooms q msgs n o
Rooms-next q q' msgs msgs' n none s r = r
Rooms-next q q' msgs msgs' n (some (q'', room)) s (msgs'', t, k) = (msgs'', Same-trans s t, k)

pub Same-refl : (q : MsgQueue) (msgs : ℕ → List Bytes) → Rep q msgs → Same q msgs q msgs
Same-refl q msgs v = record {
  rep = v;
  order = refl;
  oldest = refl;
  reader = refl;
  size = refl;
  callback = refl;
}

module _ (q : MsgQueue) (msgs : ℕ → List Bytes) (v : Rep q msgs) where
  pub at_w : Live (pbuf_size q) (pbuf_w_of q) (msgs q.pbuf_w)
  at_w = v.live q.pbuf_w v.w_in (omega arith)

module _ (f : ℕ) (malloc : ℕ → Option Bytes) (q : MsgQueue) (n : ℕ) where
  pub make_room_here :
      (pbuf_w_of q).head ≡ 0
      → ltb (free_len (pbuf_w_of q)) n ≡ false
      → make_room (suc f) malloc q n ≡ some (q, true)
  unfolding make_room
  make_room_here h room = ground (
    arith,
    write_prepare_room (pbuf_w_of q) n,
    set-get_or q.pbufs q.pbuf_w (record { len = 0; buf = []; head = 0; tail = 0; owned = false }),
  )

  make_room-none :
      ltb (free_len (pbuf_w_of q)) n ≡ true
      → wnext malloc q ≡ none
      → make_room (suc f) malloc q n ≡ some (q, false)
  unfolding make_room
  make_room-none full e = ground (arith, write_prepare_full (pbuf_w_of q) n)

  make_room_next :
      (q' : MsgQueue)
      → ltb (free_len (pbuf_w_of q)) n ≡ true
      → wnext malloc q ≡ some q'
      → make_room (suc f) malloc q n ≡ make_room f malloc q' n
  unfolding make_room
  make_room_next q' full e = ground (arith, write_prepare_full (pbuf_w_of q) n)

make_room-Rooms :
    (f : ℕ) (malloc : ℕ → Option Bytes) (q : MsgQueue) (msgs : ℕ → List Bytes) (n : ℕ)
    → Rep q msgs
    → 4 < f + span q
    → ((i : ℕ) → Allocates (malloc i) (pbuf_size q))
    → Rooms q msgs n (make_room f malloc q n)
make_room-Rooms zero malloc q msgs n v fuel a = absurd (omega arith)
make_room-Rooms (suc f) malloc q msgs n v fuel a =
    elim (Bool-cases (ltb (free_len (pbuf_w_of q)) n)) [
      | inr room ↦
          rw (make_room_here f malloc q n (at_w q msgs v).at_start room)
            (msgs, Same-refl q msgs v, λ _. ground arith)
      | inl full ↦ elim (Option-cases (wnext malloc q)) [
        | inl e ↦ rw (make_room-none f malloc q n full e) (msgs, Same-refl q msgs v, λ no. cc)
        | inr (q', e) ↦
            let (msgs', s, longer) = rw e at (wnext-Nexts malloc q msgs v (a (next q))) in
            rw (make_room_next f malloc q n q' full e) (
              Rooms-next q q' msgs msgs' n _ s (
                make_room-Rooms f malloc q' msgs' n s.rep (omega (arith, longer))
                  (λ i. subst (λ t. Allocates (malloc i) (t / pbufs_count)) (sym s.size) (a i))))
      ]
    ]

-- The search ends within the fuel that `msgqueue_push_msg` has.
pub make_room-redo :
    (malloc : ℕ → Option Bytes) (q : MsgQueue) (msgs : ℕ → List Bytes) (n : ℕ)
    → Rep q msgs
    → ((i : ℕ) → Allocates (malloc i) (pbuf_size q))
    → Rooms q msgs n (make_room redo_fuel malloc q n)
make_room-redo malloc q msgs n v a = make_room-Rooms redo_fuel malloc q msgs n v (omega arith) a
