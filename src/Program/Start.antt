-- ===== src/Program/Start.antt =====
-- How the program of lmq_main.c starts.
use lmq.Prelude.{
  ℕ, ◌≤◌, ◌≡◌, ◌⊎◌, refl, Bool, true, false, Option, none, some, inl, inr, [], ◌∷◌, ap, arith,
}
use lmq.Dlist.{null}
use lmq.Proto.{ProtoCb}
use lmq.Session.{Sessions}
use lmq.Session.Address.{SockAddr, euler_prime}
use lmq.Socket.Instance.{listening, Instance, Calls, nonblock, listen_on, init_socket}
use lmq.Socket.Events.{with_sessions}
use lmq.Socket.Balance.{IsSound, with_object, init_socket-IsSound}
use lmq.Socket.Listening.{FreshFd, Listens, unchanged, lost, listens, tcp_listen-Listens}
use lmq.Util.{str2sa}
use lmq.Main.{init}
use lmq.Program.{if_listening, listening_from, init_with, program_init}

module _ {ℓ} {S : Type ℓ} (stomp : ProtoCb (Sessions S)) (c : Calls) (w : Instance S) where
  -- The instance when nothing listens yet: 64 sockets, 1024 sessions and a table of 1033 buckets
  abbrev pub empty_table : Sessions S
  empty_table = record w.sessions {
    max_sessions = 1024;
    size = euler_prime 1024;
    table = record { head = λ i. null; links = w.sessions.table.links };
  }

  abbrev pub ready : Instance S
  ready = with_sessions empty_table (init_socket w)

  pub data Fails : Type 0 where
    no_socket : c.new_fd w.descriptors ≡ none → Fails
    blocking : nonblock c ≡ false → Fails
    no_memory : c.memory ≡ null → Fails
    not_polled : c.poll_add ≡ false → Fails
    not_listening : listen_on c ≡ false → Fails

  pub data Starts (found : Option SockAddr) (allocated poll_create : Bool)
      : Option (Instance S) → Type ℓ where
    no_address : found ≡ none → Starts found allocated poll_create none
    no_table : allocated ≡ false → Starts found allocated poll_create none
    no_poll : poll_create ≡ false → Starts found allocated poll_create none
    no_listener : Fails → Starts found allocated poll_create none
    starts :
        (w' : Instance S) (fd : ℕ)
        → c.new_fd w.descriptors ≡ some fd
        → w'.sockets ≡ (c.memory, listening (record { fd = fd; pcb = some stomp })) ∷ []
        → w'.descriptors ≡ fd ∷ []
        → (w'.sock_count ≡ 1) × (w'.max_sockets ≡ 64)
        → (w'.sessions.max_sessions ≡ 1024) × (w'.sessions.size ≡ 1033)
        → ((i : ℕ) → w'.sessions.table.head i ≡ null)
        → IsSound 0 w'
        → Starts found allocated poll_create (some w')

  why_unchanged :
      ((c.new_fd w.descriptors ≡ none) ⊎ (nonblock c ≡ false)) ⊎ ((64 ≤ 0) ⊎ (c.memory ≡ null))
      → Fails
  why_unchanged (inl (inl e)) = no_socket e
  why_unchanged (inl (inr e)) = blocking e
  why_unchanged (inr (inl le)) = absurd (omega arith)
  why_unchanged (inr (inr e)) = no_memory e

  why_lost : (c.poll_add ≡ false) ⊎ (listen_on c ≡ false) → Fails
  why_lost (inl e) = not_polled e
  why_lost (inr e) = not_listening e

  module _ (fresh : FreshFd c.new_fd) (none_yet : w.sockets ≡ [])
      (none_open : w.descriptors ≡ []) where
    listened-Starts :
        (found : Option SockAddr) (allocated poll_create : Bool) (r : Instance S × Bool)
        → Listens 0 ready c (some stomp) r
        → Starts found allocated poll_create (if_listening stomp r)
    unfolding init_socket euler_prime
    listened-Starts found allocated poll_create r (unchanged why) = no_listener (why_unchanged why)
    listened-Starts found allocated poll_create r (lost why sound) = no_listener (why_lost why)
    listened-Starts found allocated poll_create r (listens fd e l sound) =
        starts (with_object fd c.memory (listening (record { fd = fd; pcb = some stomp })) ready) fd
          e (ap (λ os. (c.memory, listening (record { fd = fd; pcb = some stomp })) ∷ os) none_yet)
          (ap (λ ds. fd ∷ ds) none_open) (refl, refl) (refl, refl) (λ i. refl) sound

    -- From an instance without sockets and descriptors, the start fails only if there is no address, no
    -- memory for the table of sessions or nothing to poll with, or if a call for the socket fails.
    -- Otherwise there is one socket, with the descriptor that the system gave, and it listens with the
    -- protocol STOMP; the table of sessions is empty and has 1033 places; the limits are 64 sockets and
    -- 1024 sessions; and one socket is counted. The system gives no descriptor that is open.
    pub program_init-Starts :
        (found : Option SockAddr) (allocated poll_create : Bool)
        → Starts found allocated poll_create (program_init stomp found allocated poll_create c w)
    unfolding program_init init_with str2sa listening_from init lmq.Session.init
    program_init-Starts none allocated poll_create = no_address refl
    program_init-Starts (some sa) false poll_create = no_table refl
    program_init-Starts (some sa) true false = no_poll refl
    program_init-Starts (some sa) true true =
        listened-Starts (some sa) true true _ (
          tcp_listen-Listens 0 ready c (some stomp) fresh
            (init_socket-IsSound w none_yet none_open))
