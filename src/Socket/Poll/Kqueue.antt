-- ===== src/Socket/Poll/Kqueue.antt =====
-- The events of libsf/sf_kqueue.c, the back end for systems without `epoll`.
use lmq.Prelude.{
  ℕ, ◌*◌, ◌≡◌, refl, Bool, true, false, Option, none, some, List, [], ◌∷◌, if◌then◌else◌,
}
use lmq.Dlist.{Ptr}
use lmq.Timer.{TimeVal}
use lmq.Socket.Instance.{Instance}
use lmq.Socket.Events.{Round, Run, done, crash, short, and_then, read_event, write_event}
use lmq.Socket.Poll.{Event, write_each, read_each, poll_wait}

pub data Filter : Type 0 where
  evfilt_read : Filter
  evfilt_write : Filter
  another : Filter

-- `struct kevent`, with the rounds of the system while the socket is read
pub record Kevent : Type 0 where
  pub filter : Filter
  pub udata : Ptr
  pub rounds : List Round

-- `struct timespec`
pub record TimeSpec : Type 0 where
  pub sec : ℕ
  pub nsec : ℕ

-- The time that `kevent` waits. `none` is NULL, which waits for ever.
unfoldable pub timespec : Option TimeVal → Option TimeSpec
timespec none = none
timespec (some t) = some (record { sec = t.sec; nsec = t.usec * 1000 })

-- `sf_socket_poll_add`: whether the two calls of `kevent` succeed
unfoldable pub poll_add : Bool → Bool → Bool
poll_add reads writes = if reads then writes else false

abbrev pub is_write : Filter → Bool
is_write evfilt_read = false
is_write evfilt_write = true
is_write another = false

abbrev pub is_read : Filter → Bool
is_read evfilt_read = true
is_read evfilt_write = false
is_read another = false

module _ {ℓ} {S : Type ℓ} (fuel : ℕ) where
  unfoldable pub kqueue_write : List Kevent → Instance S → Run (Instance S)
  unfolding write_event
  kqueue_write [] w = done w true
  kqueue_write (e ∷ es) w =
      if is_write e.filter
      then (and_then (write_event fuel w e.udata) λ w' ok. kqueue_write es w')
      else kqueue_write es w

  unfoldable pub kqueue_read : List Kevent → Instance S → Run (Instance S)
  unfolding read_event
  kqueue_read [] w = done w true
  kqueue_read (e ∷ es) w =
      if is_read e.filter
      then (and_then (read_event fuel e.rounds w e.udata) λ w' ok. kqueue_read es w')
      else kqueue_read es w

  -- `sf_socket_poll_wait`, with what `kevent` returns
  unfoldable pub kqueue_wait : Option (List Kevent) → Instance S → Run (Instance S)
  unfolding kqueue_write kqueue_read
  kqueue_wait none w = done w false
  kqueue_wait (some es) w = and_then (kqueue_write es w) λ w' ok. kqueue_read es w'

-- The event that `epoll` gives for a `kevent`
abbrev pub as_event : Kevent → Event
as_event e = record {
  writable = is_write e.filter;
  readable = is_read e.filter;
  sock = e.udata;
  rounds = e.rounds;
}

abbrev pub as_events : List Kevent → List Event
as_events [] = []
as_events (e ∷ es) = as_event e ∷ as_events es

abbrev pub as_result : Option (List Kevent) → Option (List Event)
as_result none = none
as_result (some es) = some (as_events es)

module _ {ℓ} {S : Type ℓ} (fuel : ℕ) where
  and_then-same :
      (o : Run (Instance S)) (f g : Instance S → Run (Instance S))
      → ((w : Instance S) → f w ≡ g w)
      → and_then o (λ w ok. f w) ≡ and_then o (λ w ok. g w)
  and_then-same (done w ok) f g e = e w
  and_then-same crash f g e = refl
  and_then-same short f g e = refl

  if-same :
      (b : Bool) (x y u v : Run (Instance S))
      → x ≡ u
      → y ≡ v
      → (if b then x else y) ≡ (if b then u else v)
  if-same true x y u v e f = e
  if-same false x y u v e f = f

  write-same :
      (es : List Kevent) (w : Instance S)
      → kqueue_write fuel es w ≡ write_each fuel (as_events es) w
  unfolding kqueue_write write_each
  write-same [] w = refl
  write-same (e ∷ es) w =
      if-same (is_write e.filter) _ _ _ _
        (and_then-same (write_event fuel w e.udata) _ _ λ w'. write-same es w') (write-same es w)

  read-same :
      (es : List Kevent) (w : Instance S) → kqueue_read fuel es w ≡ read_each fuel (as_events es) w
  unfolding kqueue_read read_each
  read-same [] w = refl
  read-same (e ∷ es) w =
      if-same (is_read e.filter) _ _ _ _
        (and_then-same (read_event fuel e.rounds w e.udata) _ _ λ w'. read-same es w')
        (read-same es w)

  -- Both back ends do the same for the same events.
  pub kqueue_wait-poll_wait :
      (es : Option (List Kevent)) (w : Instance S)
      → kqueue_wait fuel es w ≡ poll_wait fuel (as_result es) w
  unfolding kqueue_wait poll_wait
  kqueue_wait-poll_wait none w = refl
  kqueue_wait-poll_wait (some es) w =
      rw (write-same es w)
        (and_then-same (write_each fuel (as_events es) w) _ _ λ w'. read-same es w')
