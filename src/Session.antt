-- ===== src/Session.antt =====
-- The sessions of libsf/sf_session.c and libsf/sf_session.h: their table, their limit, and what
-- happens to the data of a session.
pub mod Address
pub mod Traffic
pub mod Keys
pub mod Limit
pub mod Input
mod Tests
use lmq.Prelude.{
  ℕ, zero, suc, ◌+◌, ◌-◌, ◌%◌, Bool, true, false, ◌&&◌, Option, none, some, List, [], ◌∷◌, ◌==◌,
  leb, if◌then◌else◌,
}
use lmq.Pbuf.{Bytes}
use lmq.Dlist.{Ptr, null}
use lmq.Buckets.{Buckets, insert, remove, search}
use lmq.Timer.{Timers, cancel}
use lmq.Proto.{ProtoCb, proto_sid, proto_start, proto_end}
use Address.{SockAddr, calc_hash, same_sockaddr, euler_prime}

-- The fields of `sf_session` that the table reads. `se_udata` belongs to the protocol's state, and
-- the timer of a session has the session's pointer.
pub record Info : Type 0 where
  pub sid : ℕ
  pub peer : SockAddr
  pub sock : Ptr

-- `sf_session_inst_t` and its records, the timers, and the protocol's state
pub record Sessions {ℓ} (S : Type ℓ) : Type ℓ where
  pub max_sessions : ℕ
  pub session_count : ℕ
  pub size : ℕ
  pub table : Buckets
  pub info : Ptr → Info
  pub timers : Timers
  pub state : S

-- The place of a key in the table
unfoldable pub slot : ℕ → Info → ℕ
unfolding calc_hash
slot size i = calc_hash i.peer i.sid % size

abbrev pub has_key : (Ptr → Info) → SockAddr → ℕ → Ptr → Bool
has_key info sa sid s = ((info s).sid == sid) && same_sockaddr (info s).peer sa

module _ {ℓ} {S : Type ℓ} where
  -- `sf_init_session`, with the state before it: 1024 sessions, and a table of NULLs. `none` is
  -- `return -1`.
  unfoldable pub init : Bool → Sessions S → Option (Sessions S)
  unfolding euler_prime
  init allocated w =
      if allocated
      then some (record w {
        max_sessions = 1024;
        size = euler_prime 1024;
        table = record { head = λ i. null; links = w.table.links };
      })
      else none

  -- `session_hash_register`
  unfoldable pub register : Sessions S → Ptr → Sessions S
  unfolding slot insert
  register w p = record w { table = insert w.table (slot w.size (w.info p)) p }

  -- `session_hash_unregister`
  unfoldable pub unregister : Sessions S → Ptr → Sessions S
  unfolding slot remove
  unregister w p = record w { table = remove w.table (slot w.size (w.info p)) p }

  -- `session_hash_lookup` and `session_find`
  unfoldable pub lookup : ℕ → Sessions S → SockAddr → ℕ → Option Ptr
  unfolding search calc_hash
  lookup fuel w sa sid = search (has_key w.info sa sid) fuel w.table (calc_hash sa sid % w.size)

  -- `session_create`; `p` is what `calloc` returns, and the result NULL where it fails or where there
  -- are too many sessions.
  unfoldable pub create : Sessions S → Ptr → SockAddr → Ptr → ℕ → Sessions S × Ptr
  unfolding register
  create w p addr sock sid =
      if leb w.max_sessions w.session_count
      then (w, null)
      else if p == null
      then (w, null)
      else let new : Info = record { sid = sid; peer = addr; sock = sock } in
        let filled = record w { info = λ q. if q == p then new else w.info q } in
        let w' = register filled p in (record w' { session_count = w'.session_count + 1 }, p)

module _ {ℓ} {S : Type ℓ} (pcb : Ptr → Option (ProtoCb (Sessions S))) where
  abbrev pub ended : Ptr → Sessions S → Option Timers → Option (Sessions S)
  unfolding unregister proto_end
  ended p w none = none
  ended p w (some ti) =
      let w1 = (proto_end (pcb (w.info p).sock) p (record w { timers = ti })).0 in
      let w2 = unregister w1 p in some (record w2 { session_count = w2.session_count - 1 })

  -- `sf_session_destroy`; `none` where the fuel for the list of timers runs out.
  unfoldable pub destroy : ℕ → Sessions S → Ptr → Option (Sessions S)
  unfolding ended cancel
  destroy fuel w p = if p == null then some w else ended p w (cancel fuel w.timers p)

  abbrev pub with_null : Option (Sessions S) → Option (Sessions S × Ptr)
  with_null none = none
  with_null (some w) = some (w, null)

  abbrev pub started : ℕ → Ptr → Sessions S × Bool → Option (Sessions S × Ptr)
  unfolding destroy
  started fuel p (w, true) = some (w, p)
  started fuel p (w, false) = with_null (destroy fuel w p)

  abbrev pub sid_or_zero : Option ℕ → ℕ
  sid_or_zero none = 0
  sid_or_zero (some sid) = sid

  -- `sf_session_create_start`, with the data in the buffer of the socket
  unfoldable pub create_start :
      ℕ → Sessions S → Ptr → SockAddr → Ptr → Bytes → Option (Sessions S × Ptr)
  unfolding create started proto_start proto_sid
  create_start fuel w p addr sock bytes =
      let r = create w p addr sock (sid_or_zero (proto_sid (pcb sock) bytes)) in
      if r.1 == null then some (r.0, null) else started fuel r.1 (proto_start (pcb sock) r.1 r.0)

  abbrev pub found_or :
      Option Ptr → Sessions S → Option (Sessions S × Ptr) → Option (Sessions S × Ptr)
  found_or none w new = none
  found_or (some s) w new = if s == null then new else some (w, s)

  -- `sf_session_find_create_start`
  unfoldable pub find_create_start :
      ℕ → Sessions S → Ptr → SockAddr → Ptr → Bytes → Option (Sessions S × Ptr)
  unfolding lookup create_start proto_sid
  find_create_start fuel w p addr sock bytes =
      found_or (lookup fuel w addr (sid_or_zero (proto_sid (pcb sock) bytes))) w
        (create_start fuel w p addr sock bytes)
