-- ===== src/Stomp/Parse/Commands.antt =====
-- `stomp_parse_command` of stomp_proto.c: the first command of the table that the text starts with.
use lmq.Prelude.{
  ℕ, ◌≤◌, ◌≡◌, refl, ap, inl, inr, true, not, ◌&&◌, Option, none, some, List, [], ◌∷◌, ◌++◌, ltb,
  Bool-cases, arith, length,
}
use lmq.Pbuf.{Bytes}
use lmq.Stomp.Text.{has_prefix}
use lmq.Stomp.Parse.{Command, parse_command}

-- `has_prefix` says whether the text is the key and something behind it.
pub has_prefix-append : (key rest : Bytes) → has_prefix key (key ++ rest) ≡ true
unfolding has_prefix
has_prefix-append [] rest = refl
has_prefix-append (k ∷ key) rest = ground (arith, has_prefix-append key rest)

pub has_prefix_split :
    (key p : Bytes) → has_prefix key p ≡ true → (rest : Bytes) × (p ≡ key ++ rest)
unfolding has_prefix
has_prefix_split [] p e = (p, refl)
has_prefix_split (k ∷ key) [] e = absurd (cc)
has_prefix_split (k ∷ key) (c ∷ p) e =
    let (rest, q) = has_prefix_split key p (ground arith) in
    let same : k ≡ c = ground arith in (rest, rw (same, q))

-- The text is that of the command, within the first `len` bytes.
abbrev pub Matches : Bytes → ℕ → Command → Type 0
Matches buf len c = (length c.str ≤ len) × (has_prefix c.str buf ≡ true)

abbrev NoneMatches : Bytes → ℕ → List Command → Type 0
NoneMatches buf len [] = Unit {0}
NoneMatches buf len (c ∷ table) = ¬ (Matches buf len c) × NoneMatches buf len table

-- A command of the table that matches, behind those that do not.
pub record Chosen (buf : Bytes) (len : ℕ) (table : List Command) (c : Command) : Type 0 where
  pub passed : List Command
  pub left : List Command
  pub split : table ≡ passed ++ c ∷ left
  pub misses : NoneMatches buf len passed
  pub hit : Matches buf len c

abbrev pub Chooses : Bytes → ℕ → List Command → Option Command → Type 0
Chooses buf len table none = NoneMatches buf len table
Chooses buf len table (some c) = Chosen buf len table c

Chooses-cons :
    (buf : Bytes) (len : ℕ) (table : List Command) (d : Command) (o : Option Command)
    → ¬ (Matches buf len d)
    → Chooses buf len table o
    → Chooses buf len (d ∷ table) o
Chooses-cons buf len table d none miss r = (miss, r)
Chooses-cons buf len table d (some c) miss r = record {
  passed = d ∷ r.passed;
  left = r.left;
  split = ap (◌∷◌ d) r.split;
  misses = (miss, r.misses);
  hit = r.hit;
}

-- `stomp_parse_command` gives the first command of the table whose name stands at the start of the
-- text and is not longer than the text, and fails exactly if there is none.
pub parse_command-Chooses :
    (buf : Bytes) (len : ℕ) (table : List Command)
    → Chooses buf len table (parse_command buf len table)
unfolding parse_command
parse_command-Chooses buf len [] = tt
parse_command-Chooses buf len (c ∷ table) =
    elim (Bool-cases (not (ltb len (length c.str)) && has_prefix c.str buf)) [
      | inl hit ↦ rw hit (record {
        passed = [];
        left = table;
        split = refl;
        misses = tt;
        hit = (ground arith, ground arith);
      })
      | inr miss ↦
          rw miss (
            Chooses-cons buf len table c _ (λ m. ground arith)
              (parse_command-Chooses buf len table))
    ]
