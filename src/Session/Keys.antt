-- ===== src/Session/Keys.antt =====
-- What the table of libsf/sf_session.c promises: a session is found by its peer and its number.
use lmq.Prelude.{
  ℕ, ◌%◌, ◌<◌, ◌≡◌, ◌≢◌, subst, Bool, true, false, Option, some, List, [], ◌∷◌, ◌==◌, arith, length,
  same_bytes→≡, same_bytes_refl,
}
use lmq.Dlist.{Ptr, null, mem}
use lmq.Dlist.Seg.{first-holds, first}
use lmq.Dlist.Unlink.{not-mem-null}
use lmq.Buckets.Table.{IsTable, search-first}
use lmq.Session.{Sessions, Info, slot, has_key, lookup}
use lmq.Session.Address.{SockAddr, inet, inet6, other, calc_hash, same_sockaddr}

-- An address of the Internet families, version 4 or 6.
pub data IsInet : SockAddr → Type 0 where
  v4 : {port : ℕ} {addr : List ℕ} → IsInet (inet port addr)
  v6 : {port : ℕ} {addr : List ℕ} → IsInet (inet6 port addr)

pub same_sockaddr→≡ : (a b : SockAddr) → same_sockaddr a b ≡ true → a ≡ b
unfolding same_sockaddr
same_sockaddr→≡ (inet p a) (inet q b) h =
    let e : a ≡ b = ground (arith, same_bytes→≡ a b) in
    let f : p ≡ q = ground arith in λ i. inet (f i) (e i)
same_sockaddr→≡ (inet6 p a) (inet6 q b) h =
    let e : a ≡ b = ground (arith, same_bytes→≡ a b) in
    let f : p ≡ q = ground arith in λ i. inet6 (f i) (e i)
same_sockaddr→≡ (inet p a) (inet6 q b) h = absurd (cc)
same_sockaddr→≡ (inet p a) (other f) h = absurd (cc)
same_sockaddr→≡ (inet6 p a) (inet q b) h = absurd (cc)
same_sockaddr→≡ (inet6 p a) (other f) h = absurd (cc)
same_sockaddr→≡ (other f) b h = absurd (cc)

pub same_sockaddr_refl : {a : SockAddr} → IsInet a → same_sockaddr a a ≡ true
unfolding same_sockaddr
same_sockaddr_refl (v4 {port} {addr}) = ground (arith, same_bytes_refl addr)
same_sockaddr_refl (v6 {port} {addr}) = ground (arith, same_bytes_refl addr)

pub has_key→≡ :
    (info : Ptr → Info) (sa : SockAddr) (sid : ℕ) (s : Ptr)
    → has_key info sa sid s ≡ true
    → ((info s).sid ≡ sid) × ((info s).peer ≡ sa)
has_key→≡ info sa sid s h = (ground arith, same_sockaddr→≡ (info s).peer sa (ground arith))

pub has_key-true :
    (info : Ptr → Info) (sa : SockAddr) (sid : ℕ) (s : Ptr)
    → (info s).sid ≡ sid
    → (info s).peer ≡ sa
    → IsInet sa
    → has_key info sa sid s ≡ true
has_key-true info sa sid s e p i =
    let same : (sid == sid) ≡ true = ground arith in rw e (rw p (rw same (same_sockaddr_refl i)))

pub first_complete :
    (test : Ptr → Bool) (ps : List Ptr) (s : Ptr)
    → mem s ps ≡ true
    → test s ≡ true
    → mem null ps ≡ false
    → first test ps ≢ null
unfolding first
first_complete test [] s m t out = absurd (cc)
first_complete test (p ∷ ps) s m t out = ground (arith, first_complete test ps s)

module _ {ℓ} {S : Type ℓ} where
  -- The table of a state, whose buckets are these.
  abbrev pub Holds : Sessions S → (ℕ → List Ptr) → Type 0
  Holds w chains = IsTable (λ s. slot w.size (w.info s)) w.table chains

  pub record Finds (w : Sessions S) (chains : ℕ → List Ptr) (sa : SockAddr) (sid : ℕ)
      (r : Option Ptr) : Type 0 where
    pub session : Ptr
    pub result : r ≡ some session
    pub sound : session ≢ null → ((w.info session).sid ≡ sid) × ((w.info session).peer ≡ sa)
    pub complete :
        (s : Ptr)
        → mem s (chains (slot w.size (w.info s))) ≡ true
        → (w.info s).sid ≡ sid
        → (w.info s).peer ≡ sa
        → IsInet sa
        → session ≢ null

  -- If a bucket has fewer sessions than there is fuel, then the lookup ends. A session that it finds
  -- has the number and the peer that it looks for, and it finds one if there is one in the table and
  -- the peer is an address of the Internet families.
  pub lookup-Finds :
      (fuel : ℕ) (w : Sessions S) (chains : ℕ → List Ptr) (sa : SockAddr) (sid : ℕ)
      → Holds w chains
      → length (chains (calc_hash sa sid % w.size)) < fuel
      → Finds w chains sa sid (lookup fuel w sa sid)
  unfolding lookup slot
  lookup-Finds fuel w chains sa sid v f =
      let test : Ptr → Bool = has_key w.info sa sid in
      let ps = chains (calc_hash sa sid % w.size) in
      record {
        session = first test ps;
        result = search-first _ test fuel v (calc_hash sa sid % w.size) f;
        sound = λ ne. has_key→≡ w.info sa sid (first test ps) (first-holds test ps ne);
        complete = λ s m e p i.
            let k : slot w.size (w.info s) ≡ calc_hash sa sid % w.size =
              λ j. calc_hash (p j) (e j) % w.size in
            first_complete test ps s (subst (λ n. mem s (chains n) ≡ true) k m)
              (has_key-true w.info sa sid s e p i)
              (not-mem-null (v.chain (calc_hash sa sid % w.size)));
      }
