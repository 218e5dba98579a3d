-- ===== src/MsgQueue.antt =====
-- The message queues of mqcore/msgqueue.c and mqcore/msgqueue.h: a ring of four packet buffers,
-- each holding messages behind a four-byte header. Sizes and offsets are natural numbers; `int`
-- arithmetic that the input can make wrap is written out.
pub mod Frames
pub mod Live
pub mod Rep
pub mod Update
pub mod Seek
pub mod Read
pub mod Next
pub mod Room
pub mod Write
pub mod Pushing
pub mod Stable
pub mod Accepting
pub mod Callback
pub mod Tests
use lmq.Prelude.{
  ℕ, zero, suc, ◌+◌, ◌*◌, ◌/◌, ◌%◌, ◌^◌, ◌-◌, Bool, true, false, not, Option, none, some, List, [],
  ◌∷◌, ◌++◌, ltb, leb, ◌==◌, if◌then◌else◌, length, drop, take, get_or, set, replicate,
}
use lmq.Pbuf.{
  Pbuf, Bytes, Ret, ok, failed, fault, data_len, buffer_len, write_prepare, write, adjust, init,
  release,
}

abbrev pub pbufs_count : ℕ
pbufs_count = 4

-- `sizeof(msgqueue_msghdr_t)`, one little-endian `unsigned`
abbrev pub header_size : ℕ
header_size = 4

-- `callback` is the parameter of `mq_push_callback`, or `none` where that is NULL.
pub record MsgQueue : Type 0 where
  pub pbufs : List Pbuf
  pub pbuf_r : ℕ
  pub pbuf_w : ℕ
  pub queue_total_size : ℕ
  pub callback : Option ℕ

-- A place in the queue's memory: a buffer and an offset from its `pb_buf`.
pub record Place : Type 0 where
  pub slot : ℕ
  pub offset : ℕ

abbrev pub pbuf_at : MsgQueue → ℕ → Pbuf
pbuf_at q i = get_or q.pbufs i (record { len = 0; buf = []; head = 0; tail = 0; owned = false })

abbrev pub pbuf_size : MsgQueue → ℕ
pbuf_size q = q.queue_total_size / pbufs_count

-- `header.mmh_len = n`, as the bytes that are written
unfoldable pub header_bytes : ℕ → Bytes
header_bytes n = n % 256 ∷ n / 256 % 256 ∷ n / 65536 % 256 ∷ n / 16777216 % 256 ∷ []

-- `header->mmh_len`, from the bytes at `header`
unfoldable pub header_len : Bytes → ℕ
header_len (a ∷ b ∷ c ∷ d ∷ _) = a + 256 * b + 65536 * c + 16777216 * d
header_len _ = 0

-- The length of a message at the front of a buffer's data.
abbrev pub front_len : Pbuf → ℕ
front_len p = header_len (drop p.head p.buf)

abbrev pub new_queue : Pbuf → Pbuf → ℕ → Option ℕ → MsgQueue
new_queue first empty size callback = record {
  pbufs = first ∷ empty ∷ empty ∷ empty ∷ [];
  pbuf_r = 0;
  pbuf_w = 0;
  queue_total_size = size;
  callback = callback;
}

-- From the outcomes of `sf_pbuf_init(…, 0)`, four times, and of the first buffer's. The code does
-- not look at the former, which cannot fail.
create_from : Ret Pbuf → Ret Pbuf → ℕ → Option ℕ → Option MsgQueue
create_from (ok empty) (ok first) size callback = some (new_queue first empty size callback)
create_from _ _ size callback = none

unfoldable pub create : Option Bytes → ℕ → Option ℕ → Option MsgQueue
unfolding create_from init
create block size = create_from (init none 0) (init block (size / pbufs_count)) size

-- The buffers that `msgqueue_destroy` leaves, all released, before it frees the queue.
unfoldable pub release_all : List Pbuf → List Pbuf
release_all [] = []
release_all (p ∷ ps) = release p ∷ release_all ps

unfoldable pub destroy : MsgQueue → List Pbuf
unfolding release_all
destroy q = release_all q.pbufs

unfoldable pub rnext : MsgQueue → Option MsgQueue
rnext q =
    if q.pbuf_r == q.pbuf_w
    then none
    else some (record q {
      pbufs = set q.pbufs q.pbuf_r (release (pbuf_at q q.pbuf_r));
      pbuf_r = (q.pbuf_r + 1) % pbufs_count;
    })

-- `msgqueue_wnext` from the outcome of `sf_pbuf_init` for the buffer `next`.
with_next : MsgQueue → ℕ → Ret Pbuf → Option MsgQueue
with_next q next (ok p) = some (record q { pbufs = set q.pbufs next p; pbuf_w = next })
with_next q next _ = none

-- `malloc i` is what `malloc` returns for the buffer `i`.
unfoldable pub wnext : (ℕ → Option Bytes) → MsgQueue → Option MsgQueue
unfolding with_next
wnext malloc q =
    let next = (q.pbuf_w + 1) % pbufs_count in
    if not (buffer_len (pbuf_at q next) == 0)
    then none
    else with_next q next (init (malloc next) (pbuf_size q))

-- The `redo` loop of `msgqueue_peek` and of `msgqueue_pop_msg`: on to a buffer that holds a
-- message. The flag says whether there is one; `none` means that the fuel ran out.
unfoldable pub seek : ℕ → MsgQueue → Option (MsgQueue × Bool)
seek zero q = none
seek (suc fuel) q =
    let rest : Option (MsgQueue × Bool) = elim (rnext q) [
      | none ↦ some (q, false)
      | some q' ↦ seek fuel q'
    ] in
    if ltb (data_len (pbuf_at q q.pbuf_r)) header_size then rest else some (q, true)

abbrev pub redo_fuel : ℕ
redo_fuel = 5

front : MsgQueue → Place × ℕ
front q =
    let p = pbuf_at q q.pbuf_r in
    (record { slot = q.pbuf_r; offset = p.head + header_size }, front_len p)

at_front : Option (MsgQueue × Bool) → Option (MsgQueue × Option (Place × ℕ))
unfolding front
at_front none = none
at_front (some (q, true)) = some (q, some (front q))
at_front (some (q, false)) = some (q, none)

-- With the place and the length of the oldest message, if there is one.
unfoldable pub peek : MsgQueue → Option (MsgQueue × Option (Place × ℕ))
unfolding at_front
peek q = at_front (seek redo_fuel q)

drop_front : MsgQueue → MsgQueue
drop_front q =
    let p = pbuf_at q q.pbuf_r in
    record q { pbufs = set q.pbufs q.pbuf_r (adjust p (header_size + front_len p)) }

without_front : Option (MsgQueue × Bool) → Option (MsgQueue × Bool)
unfolding drop_front
without_front none = none
without_front (some (q, true)) = some (drop_front q, true)
without_front (some (q, false)) = some (q, false)

-- The flag is false for `return -1`.
unfoldable pub pop_msg : MsgQueue → Option (MsgQueue × Bool)
unfolding without_front
pop_msg q = without_front (seek redo_fuel q)

-- An `iov` is the list of the byte strings that it points to.
abbrev pub iov_bytes : List Bytes → Bytes
iov_bytes [] = []
iov_bytes (b ∷ bs) = b ++ iov_bytes bs

-- `int len`, as its bit pattern: the sum wraps
unfoldable pub total_len : List Bytes → ℕ
total_len [] = 0
total_len (b ∷ bs) = (length b + total_len bs) % 2 ^ 32

-- `total_len > self->mq_queue_total_size / MSGQUEUE_PBUFS`, with the `int` converted to `size_t`
unfoldable pub too_big : MsgQueue → ℕ → Bool
too_big q n = ltb (pbuf_size q) (if ltb n (2 ^ 31) then n else n + (2 ^ 64 - 2 ^ 32))

-- The `redo` loop of `msgqueue_push_msg`, with the flag and the fuel of `seek`.
unfoldable pub make_room : ℕ → (ℕ → Option Bytes) → MsgQueue → ℕ → Option (MsgQueue × Bool)
make_room zero malloc q n = none
make_room (suc fuel) malloc q n =
    let rest : Option (MsgQueue × Bool) = elim (wnext malloc q) [
      | none ↦ some (q, false)
      | some q' ↦ make_room fuel malloc q' n
    ] in
    elim (write_prepare (pbuf_at q q.pbuf_w) n) [
      | none ↦ rest
      | some p ↦ some (record q { pbufs = set q.pbufs q.pbuf_w p }, true)
    ]

-- The writes, up to the first that fails.
unfoldable pub write_all : Pbuf → List Bytes → Pbuf × Bool
write_all p [] = (p, true)
write_all p (b ∷ bs) = elim (write p b) [ none ↦ (p, false) | some p' ↦ write_all p' bs ]

-- `return -1`, or `return 0` after the callback, if there is one, has been called.
pub data Pushed : Type 0 where
  rejected : Pushed
  accepted : Option ℕ → Pushed

unfoldable pub store_msg : MsgQueue → ℕ → List Bytes → MsgQueue × Pushed
store_msg q n iov =
    let (p, done) = write_all (pbuf_at q q.pbuf_w) (header_bytes n ∷ iov) in
    (record q { pbufs = set q.pbufs q.pbuf_w p }, if done then accepted q.callback else rejected)

unfoldable pub push_from : ℕ → List Bytes → Option (MsgQueue × Bool) → Option (MsgQueue × Pushed)
unfolding store_msg
push_from n iov none = none
push_from n iov (some (q, true)) = some (store_msg q n iov)
push_from n iov (some (q, false)) = some (q, rejected)

unfoldable pub push_msg : (ℕ → Option Bytes) → MsgQueue → List Bytes → Option (MsgQueue × Pushed)
unfolding push_from
push_msg malloc q iov =
    let n = total_len iov in
    if too_big q n
    then some (q, rejected)
    else push_from n iov (make_room redo_fuel malloc q (header_size + n))

-- The bytes at a place.
abbrev pub bytes_at : MsgQueue → Place → ℕ → Bytes
bytes_at q a n = take n (drop a.offset (pbuf_at q a.slot).buf)
