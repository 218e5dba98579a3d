-- ===== src/Session/Traffic.antt =====
-- The calls of libsf/sf_session.c with the data of a session, in both directions.
use lmq.Prelude.{ℕ, zero, suc, Bool, true, false, Option, none, some, ◌==◌, if◌then◌else◌}
use lmq.Prelude.Int.{ℤ, pos, negsuc}
use lmq.Pbuf.{Pbuf, contents, adjust}
use lmq.Dlist.{Ptr, null}
use lmq.Proto.{ProtoCb, proto_output, proto_timeout, proto_estlen, proto_msglen, proto_input}
use lmq.Session.{Sessions}

-- A loop goes on while the length is positive.
abbrev pub while_positive {ℓ} : {A : Type ℓ} → ℤ → A → (ℕ → A) → A
while_positive (negsuc k) done more = done
while_positive (pos n) done more = if n == 0 then done else more n

-- `sf_session_input`: a message that the protocol refuses is dropped too. `none` where the fuel runs
-- out.
unfoldable pub session_input {ℓ} :
    {W : Type ℓ} → Option (ProtoCb W) → Ptr → ℕ → Pbuf → W → Option (Pbuf × W)
unfolding contents adjust proto_msglen proto_input
session_input pcb session zero p w = none
session_input pcb session (suc fuel) p w =
    while_positive (proto_msglen pcb session (contents p) w) (some (p, w))
      λ n. session_input pcb session fuel (adjust p n) (proto_input pcb session (contents p) n w).0

module _ {ℓ} {S : Type ℓ} (pcb : Ptr → Option (ProtoCb (Sessions S))) where
  -- `sf_session_estlen`
  unfoldable pub session_estlen : Sessions S → Ptr → Pbuf → ℤ
  unfolding proto_estlen contents
  session_estlen w s p = proto_estlen (pcb (w.info s).sock) s (contents p) w

  -- `sf_session_output`
  unfoldable pub session_output : Sessions S → Ptr → Sessions S × Bool
  unfolding proto_output
  session_output w s = proto_output (pcb (w.info s).sock) s w

  -- `sf_session_timeout`
  unfoldable pub session_timeout : Sessions S → Ptr → Sessions S × Bool
  unfolding proto_timeout
  session_timeout w s = proto_timeout (pcb (w.info s).sock) s w

  -- The inner loop of `sf_session_output_bcast`. The link is read after the output.
  unfoldable pub bcast_bucket : ℕ → Ptr → Sessions S → Ptr → Option (Sessions S × Bool)
  unfolding session_output
  bcast_bucket zero sock w s = none
  bcast_bucket (suc fuel) sock w s =
      let r = if (w.info s).sock == sock then session_output w s else (w, true) in
      let rest = bcast_bucket fuel sock r.0 (r.0.table.links s).next in
      if s == null then some (w, true) else if r.1 then rest else some (r.0, false)

  abbrev pub bcast_on :
      Option (Sessions S × Bool)
      → (Sessions S → Option (Sessions S × Bool))
      → Option (Sessions S × Bool)
  bcast_on none next = none
  bcast_on (some (w, true)) next = next w
  bcast_on (some (w, false)) next = some (w, false)

  -- `sf_session_output_bcast` from the bucket `i` on, with `rest` buckets to go
  unfoldable pub bcast_from : ℕ → Ptr → ℕ → ℕ → Sessions S → Option (Sessions S × Bool)
  unfolding bcast_bucket
  bcast_from fuel sock i zero w = some (w, true)
  bcast_from fuel sock i (suc rest) w =
      bcast_on (bcast_bucket fuel sock w (w.table.head i))
        λ w'. bcast_from fuel sock (suc i) rest w'

  unfoldable pub output_bcast : ℕ → Sessions S → Ptr → Option (Sessions S × Bool)
  unfolding bcast_from
  output_bcast fuel w sock = bcast_from fuel sock 0 w.size w
