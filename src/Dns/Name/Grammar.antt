-- ===== src/Dns/Name/Grammar.antt =====
-- RFC 1035 4.1.4 as a relation: which labels the bytes of a message spell at an offset.
use labyrinth.Prelude.{
  ℕ, suc, ◌+◌, ◌≤◌, ◌<◌, ◌≡◌, true, ◌∙◌, List, [], ◌∷◌, ◌++◌, arith, some, Bytes, length, take,
  drop, get_elem?, get_elem?-append, get_or-get_elem?, take-drop-append, length-append,
}
use labyrinth.Dns.Name.{is_pointer, pointer_target}

-- From offset `off` the message spells the labels; what follows the name at `off` begins at `e`,
-- and `p` pointers are followed on the way, each to an earlier offset.
pub data Spells (msg : Bytes) : ℕ → List Bytes → ℕ → ℕ → Type 0 where
  root : {off e p : ℕ} → get_elem? msg off ≡ some 0 → e ≡ off + 1 → p ≡ 0 → Spells msg off [] e p
  label :
      {off next e p : ℕ} (l : Bytes) {ls : List Bytes}
      → get_elem? msg off ≡ some (length l)
      → 0 < length l
      → length l ≤ 63
      → next ≡ off + 1 + length l
      → next ≤ length msg
      → take (length l) (drop (off + 1) msg) ≡ l
      → Spells msg next ls e p
      → Spells msg off (l ∷ ls) e p
  pointer :
      {off e p : ℕ} (a b e' q : ℕ) {ls : List Bytes}
      → get_elem? msg off ≡ some a
      → get_elem? msg (off + 1) ≡ some b
      → is_pointer a ≡ true
      → pointer_target a b < off
      → Spells msg (pointer_target a b) ls e' q
      → e ≡ off + 2
      → p ≡ suc q
      → Spells msg off ls e p

-- More bytes behind the message change nothing.
pub Spells-append :
    {msg : Bytes} {off : ℕ} {ls : List Bytes} {e p : ℕ} (more : Bytes)
    → Spells msg off ls e p
    → Spells (msg ++ more) off ls e p
Spells-append {msg} more (root h q r) = root (get_elem?-append msg more _ h) q r
Spells-append {msg} more (label l h pos fits n inside cut s) =
    label l (get_elem?-append msg more _ h) pos fits n (omega (arith, length-append {0} msg more))
      (take-drop-append _ (length l) msg more (omega arith) ∙ cut) (Spells-append more s)
Spells-append {msg} more (pointer a b e' q h k m back s x y) =
    pointer a b e' q (get_elem?-append msg more _ h) (get_elem?-append msg more _ k) m back
      (Spells-append more s) x y

-- A name begins inside the message.
pub Spells-within :
    {msg : Bytes} {off : ℕ} {ls : List Bytes} {e p : ℕ} → Spells msg off ls e p → off < length msg
Spells-within {msg} {off} (root h q r) = (get_or-get_elem? msg off 0 h).0
Spells-within {msg} {off} (label l h pos fits n inside cut s) = (get_or-get_elem? msg off 0 h).0
Spells-within {msg} {off} (pointer a b e' q h k m back s x y) = (get_or-get_elem? msg off 0 h).0
