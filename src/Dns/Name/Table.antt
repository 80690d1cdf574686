-- ===== src/Dns/Name/Table.antt =====
-- The table `compressed` of the writer, as a property of what is written.
use mathlib.Core.Path.{ap₂}
use labyrinth.Prelude.{
  ℕ, ◌≤◌, ◌<◌, ◌≡◌, ◌⊎◌, ap, List, [], ◌∷◌, ◌++◌, arith, some, Bytes, length, length-append, subst,
  inl, inr, Bool-cases,
}
use labyrinth.Text.{equal, join}
use labyrinth.Text.Labels.{equal_iff, IsLabels}
use labyrinth.Dns.Wire.{offset_of}
use labyrinth.Dns.Name.Grammar.{Spells, Spells-append}

-- An entry of the table names an offset at which the written bytes spell that name.
pub record IsSpelled (msg : Bytes) (entry : Bytes × ℕ) : Type 0 where
  pub labels : List Bytes
  pub finish : ℕ
  pub pointers : ℕ
  pub are_labels : IsLabels labels
  pub joined : entry.0 ≡ join labels
  pub spells : Spells msg entry.1 labels finish pointers
  pub fewer : pointers < length labels
  pub before : entry.1 < length msg

IsSpelled-append :
    {msg : Bytes} {entry : Bytes × ℕ} (more : Bytes)
    → IsSpelled msg entry
    → IsSpelled (msg ++ more) entry
IsSpelled-append {msg} more s = record {
  labels = s.labels;
  finish = s.finish;
  pointers = s.pointers;
  are_labels = s.are_labels;
  joined = s.joined;
  spells = Spells-append more s.spells;
  fewer = s.fewer;
  before = omega (arith, length-append {0} msg more, s.before);
}

abbrev pub AllSpelled : Bytes → List (Bytes × ℕ) → Type 0
AllSpelled msg [] = Unit {0}
AllSpelled msg (x ∷ xs) = IsSpelled msg x × AllSpelled msg xs

pub AllSpelled-append :
    (msg : Bytes) (xs : List (Bytes × ℕ)) (more : Bytes)
    → AllSpelled msg xs
    → AllSpelled (msg ++ more) xs
AllSpelled-append msg [] more h = tt
AllSpelled-append msg (x ∷ xs) more (h, hs) =
    (IsSpelled-append more h, AllSpelled-append msg xs more hs)

-- While a name of `n` bytes is still to be written, longer entries may be unfinished.
abbrev pub Pending : ℕ → Bytes → List (Bytes × ℕ) → Type 0
Pending n msg [] = Unit {0}
Pending n msg (x ∷ xs) = ((n < length x.0) ⊎ IsSpelled msg x) × Pending n msg xs

pub Pending-append :
    (n m : ℕ) (msg : Bytes) (xs : List (Bytes × ℕ)) (more : Bytes)
    → m ≤ n
    → Pending n msg xs
    → Pending m (msg ++ more) xs
Pending-append n m msg [] more h p = tt
Pending-append n m msg (x ∷ xs) more h (inl long, p) =
    (inl (omega arith), Pending-append n m msg xs more h p)
Pending-append n m msg (x ∷ xs) more h (inr s, p) =
    (inr (IsSpelled-append more s), Pending-append n m msg xs more h p)

pub AllSpelled-Pending :
    (n : ℕ) (msg : Bytes) (xs : List (Bytes × ℕ)) → AllSpelled msg xs → Pending n msg xs
AllSpelled-Pending n msg [] h = tt
AllSpelled-Pending n msg (x ∷ xs) (h, hs) = (inr h, AllSpelled-Pending n msg xs hs)

-- A name of at most `n` bytes that is found in the table is spelled at the offset found.
pub offset_of-Pending :
    (n : ℕ) (msg name : Bytes) (xs : List (Bytes × ℕ)) {o : ℕ}
    → length name ≤ n
    → Pending n msg xs
    → offset_of name xs ≡ some o
    → IsSpelled msg (name, o)
unfolding offset_of
offset_of-Pending n msg name [] short h e = absurd cc
offset_of-Pending n msg name ((key, at) ∷ xs) short (p, ps) e = elim (Bool-cases (equal key name)) [
  | inl same ↦ found p ((equal_iff key name).0 same) (ground arith)
  | inr other ↦ offset_of-Pending n msg name xs short ps (ground arith)
]
  where
    found :
        {o : ℕ}
        → (n < length key) ⊎ IsSpelled msg (key, at)
        → key ≡ name
        → at ≡ o
        → IsSpelled msg (name, o)
    found (inl long) k a = absurd (omega (arith, ap length k))
    found (inr s) k a = subst (λ x. IsSpelled msg x) (ap₂ (λ k a. (k, a)) k a) s

pub AllSpelled-concat :
    {msg : Bytes} (xs : List (Bytes × ℕ)) {x : Bytes × ℕ}
    → AllSpelled msg xs
    → IsSpelled msg x
    → AllSpelled msg (xs ++ x ∷ [])
AllSpelled-concat [] h s = (s, tt)
AllSpelled-concat (y ∷ xs) (h, hs) s = (h, AllSpelled-concat xs hs s)
