-- ===== src/Program/Running.antt =====
-- The program of lmq_main.c from its start on, through the loop of libsf/sf_main.c.
use lmq.Prelude.{ℕ, ◌≡◌, subst, Bool, Option, none, some, List, [], ◌∷◌}
use lmq.Proto.{ProtoCb}
use lmq.Session.{Sessions}
use lmq.Session.Address.{SockAddr}
use lmq.Socket.Instance.{Instance, Calls}
use lmq.Socket.Poll.{Event}
use lmq.Socket.Balance.{IsSound}
use lmq.Socket.Listening.{FreshFd}
use lmq.Socket.Sound.{Keeps, and_then-Keeps}
use lmq.Main.Loop.{Turn, turn, main_loop}
use lmq.Main.Reach.{FairEvents, poll_wait-Keeps, execute-Keeps}
use lmq.Main.{wait}
use lmq.Program.{program_init}
use lmq.Program.Start.{
  Starts, no_address, no_table, no_poll, no_listener, starts, program_init-Starts,
}

-- The system is fair in all rounds of the loop.
abbrev pub FairTurns : List Turn → Type 0
FairTurns [] = Unit {0}
FairTurns (t ∷ ts) =
    ((ms : Option ℕ) (l : List Event) → t.events ms ≡ some l → FairEvents l) × FairTurns ts

module _ {ℓ} {S : Type ℓ} (fuel : ℕ) where
  main_loop-Keeps :
      (k : ℕ) (ts : List Turn) (w : Instance S)
      → FairTurns ts
      → IsSound k w
      → Keeps k (main_loop fuel ts w)
  unfolding main_loop turn
  main_loop-Keeps k [] w fair v = v
  main_loop-Keeps k (t ∷ ts) w fair v =
      and_then-Keeps k _ _
        (and_then-Keeps k _ _
          (poll_wait-Keeps fuel k (t.events (wait w.sessions.timers t.now)) w
            (fair.0 (wait w.sessions.timers t.now)) v)
          λ w' ok v'. execute-Keeps fuel k w' t.later v')
        λ w' ok v'. main_loop-Keeps k ts w' fair.1 v'

  abbrev SoundIf : Option (Instance S) → Type ℓ
  SoundIf none = Unit
  SoundIf (some w) = IsSound 0 w

  started-IsSound :
      (stomp : ProtoCb (Sessions S)) (c : Calls) (w : Instance S) (found : Option SockAddr)
      (allocated poll_create : Bool) {o : Option (Instance S)} {w' : Instance S}
      → Starts stomp c w found allocated poll_create o
      → o ≡ some w'
      → IsSound 0 w'
  started-IsSound stomp c w found allocated poll_create (no_address e) is = absurd (cc)
  started-IsSound stomp c w found allocated poll_create (no_table e) is = absurd (cc)
  started-IsSound stomp c w found allocated poll_create (no_poll e) is = absurd (cc)
  started-IsSound stomp c w found allocated poll_create (no_listener e) is = absurd (cc)
  started-IsSound stomp c w found allocated poll_create (starts _ fd e os ds ns ss hs v) is =
      subst SoundIf is v

  -- The program that has started, from an instance without sockets and descriptors, never loses
  -- count of its sockets in its loop, whatever events come and timers fire: after any number of
  -- rounds, unless it crashes or the model is short of rounds or fuel, the count of the sockets is
  -- their number and within the limit, the descriptors that are open are those of the sockets, each
  -- once, and their buffers are valid, with the data at the start of the block. The system gives no
  -- descriptor that is open, no more bytes than it is asked for, and blocks of the size that it is
  -- asked for; and a protocol changes the sessions only.
  pub main_loop-IsSound :
      (stomp : ProtoCb (Sessions S)) (c : Calls) (w : Instance S) (found : Option SockAddr)
      (allocated poll_create : Bool) (w' : Instance S) (ts : List Turn)
      → FreshFd c.new_fd
      → w.sockets ≡ []
      → w.descriptors ≡ []
      → program_init stomp found allocated poll_create c w ≡ some w'
      → FairTurns ts
      → Keeps 0 (main_loop fuel ts w')
  main_loop-IsSound stomp c w found allocated poll_create w' ts fresh none_yet none_open is fair =
      main_loop-Keeps 0 ts w' fair (
        started-IsSound stomp c w found allocated poll_create
          (program_init-Starts stomp c w fresh none_yet none_open found allocated poll_create) is)
