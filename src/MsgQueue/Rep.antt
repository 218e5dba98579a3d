-- ===== src/MsgQueue/Rep.antt =====
-- What a message queue of msgqueue.c stands for: the messages that it holds, the oldest first.
use lmq.Prelude.{
  ℕ, zero, suc, ◌+◌, ◌-◌, ◌/◌, ◌%◌, ◌^◌, ◌≤◌, ◌<◌, ◌≡◌, List, [], ◌++◌, length, arith, some, none,
  Option, refl,
}
use lmq.Pbuf.{Pbuf, Bytes, contents, Ret, ok, failed, fault, init}
use lmq.Pbuf.Inv.{IsValid}
use lmq.Pbuf.Resize.{Allocates, Inits, init_lem}
use lmq.MsgQueue.{MsgQueue, pbuf_at, pbuf_size, pbufs_count, new_queue, create_from, create}
use lmq.MsgQueue.Frames.{encode}

-- How far the buffer `i` is from the one that is read.
abbrev pub ahead : MsgQueue → ℕ → ℕ
ahead q i = (i + pbufs_count - q.pbuf_r) % pbufs_count

abbrev pub span : MsgQueue → ℕ
span q = ahead q q.pbuf_w

-- A buffer in use: its data starts at the block's start, and is these messages.
pub record Live (size : ℕ) (p : Pbuf) (ms : List Bytes) : Type 0 where
  pub valid : IsValid p
  pub at_start : p.head ≡ 0
  pub same_len : p.len ≡ size
  pub data_is : contents p ≡ encode ms

-- The buffers from the one that is read to the one that is written are in use, the others have no
-- block.
pub record Rep (q : MsgQueue) (msgs : ℕ → List Bytes) : Type 0 where
  pub count : length q.pbufs ≡ pbufs_count
  pub r_in : q.pbuf_r < pbufs_count
  pub w_in : q.pbuf_w < pbufs_count
  pub some_size : 0 < pbuf_size q
  pub int_size : pbuf_size q < 2 ^ 31
  pub live :
      (i : ℕ) → i < pbufs_count → ahead q i ≤ span q → Live (pbuf_size q) (pbuf_at q i) (msgs i)
  pub dead : (i : ℕ) → i < pbufs_count → span q < ahead q i → (pbuf_at q i).len ≡ 0

-- The messages of `n + 1` buffers, from buffer `i` on.
unfoldable pub walk : (ℕ → List Bytes) → ℕ → ℕ → List Bytes
walk msgs zero i = msgs i
walk msgs (suc n) i = msgs i ++ walk msgs n ((i + 1) % pbufs_count)

-- The queue is well formed and holds the messages `xs`.
pub record Holds (q : MsgQueue) (xs : List Bytes) : Type 0 where
  pub msgs : ℕ → List Bytes
  pub rep : Rep q msgs
  pub order : walk msgs (span q) q.pbuf_r ≡ xs

abbrev pub Creates : Option Bytes → Option MsgQueue → Type 0
Creates block none = block ≡ none
Creates block (some q) = Holds q []

module _ (size : ℕ) (lo : 4 ≤ size) (hi : size < 2 ^ 33) where
  new_queue-Rep :
      (first empty : Pbuf) (callback : Option ℕ)
      → Live (size / pbufs_count) first []
      → empty.len ≡ 0
      → Rep (new_queue first empty size callback) (λ i. [])
  new_queue-Rep first empty callback f e = record {
    count = refl;
    r_in = omega arith;
    w_in = omega arith;
    some_size = omega arith;
    int_size = omega arith;
    live = elim [ zero ↦ λ _ _. f | suc i ↦ λ h k. absurd (omega arith) ];
    dead = elim [
      | zero ↦ λ h k. absurd (omega arith)
      | suc zero ↦ λ h k. e
      | suc (suc zero) ↦ λ h k. e
      | suc (suc (suc zero)) ↦ λ h k. e
      | suc (suc (suc (suc i))) ↦ λ h k. absurd (omega arith)
    ];
  }

  create_from-Creates :
      (block : Option Bytes) (empty first : Ret Pbuf) (callback : Option ℕ)
      → Inits none 0 [] empty
      → Inits block (size / pbufs_count) [] first
      → Creates block (create_from empty first size callback)
  unfolding create_from walk encode
  create_from-Creates block (ok empty) (ok first) callback e f = record {
    msgs = λ i. [];
    rep =
        new_queue-Rep first empty callback
          (record { valid = f.0; at_start = f.2; same_len = f.1; data_is = f.3 }) e.1;
    order = refl;
  }
  create_from-Creates block (ok empty) failed callback e f = f.0
  create_from-Creates block (ok empty) fault callback e f = absurd (omega arith)
  create_from-Creates block failed first callback e f = absurd (omega arith)
  create_from-Creates block fault first callback e f = absurd (omega arith)

-- `msgqueue_create`, with what `malloc` returned for the first buffer, fails only for want of
-- memory; the queue it creates is well formed and holds no message.
pub create-Holds :
    (block : Option Bytes) (size : ℕ) (callback : Option ℕ)
    → 4 ≤ size
    → size < 2 ^ 33
    → Allocates block (size / pbufs_count)
    → Creates block (create block size callback)
unfolding create
create-Holds block size callback lo hi a =
    create_from-Creates size lo hi block (init none 0) (init block (size / pbufs_count)) callback
      (init_lem none 0 tt) (init_lem block (size / pbufs_count) a)
