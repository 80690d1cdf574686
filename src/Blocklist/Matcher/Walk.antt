-- ===== src/Blocklist/Matcher/Walk.antt =====
-- The walk of `Match` over the parents of a name, and the keys at or above the name.
use labyrinth.Prelude.{
  ℕ, zero, suc, ◌<◌, true, List, [], ◌∷◌, ◌++◌, some, Bytes, ◌≡◌, ◌⊎◌, ◌↔◌, inl, inr, length, arith,
  refl, ap, sym, ◌∙◌, Bool-cases, Option-cases,
}
use labyrinth.Text.{after_dot, split, join}
use labyrinth.Text.Labels.{split_pieces, join-split}
use labyrinth.Text.Zone.{IsUnder, after_dot-some, after_dot-none, length-after_dot}
use labyrinth.Blocklist.Matcher.{has_key, walk_loop, walk}

-- A key is at or above the name.
abbrev pub Covers : List Bytes → Bytes → Type 0
Covers keys name = (zone : Bytes) × (has_key keys zone ≡ true) × IsUnder name zone

walk_loop-Covers :
    (fuel : ℕ) (keys : List Bytes) (d : Bytes) → walk_loop fuel keys d ≡ true → Covers keys d
unfolding walk_loop
walk_loop-Covers zero keys d h = absurd cc
walk_loop-Covers (suc fuel) keys d h = elim (Bool-cases (has_key keys d)) [
  | inl k ↦ (d, k, ([], refl))
  | inr n ↦ elim (Option-cases (after_dot d)) [
    | inl none_left ↦ absurd (ground arith)
    | inr (parent, e) ↦
        let (zone, k, (front, s)) = walk_loop-Covers fuel keys parent (ground arith) in
        let (l, t) = after_dot-some d e in (zone, k, (l ∷ front, t ∙ ap (◌∷◌ l) s))
  ]
]

split-injective : (a b : Bytes) → split a ≡ split b → a ≡ b
split-injective a b e = sym (join-split a) ∙ ap join e ∙ join-split b

-- A name of one label has no parent.
ends :
    {d l : Bytes} (front : List Bytes) (zone : Bytes)
    → split d ≡ d ∷ []
    → split d ≡ l ∷ (front ++ split zone)
    → ⊥
ends [] zone one e = let (m, ms, s, _) = split_pieces zone in ground (arith, one, e, s)
ends (k ∷ front) zone one e = ground (arith, one, e)

-- A name is its own suffix of labels, or its parent has the suffix.
IsUnder-after_dot :
    (d zone : Bytes)
    → IsUnder d zone
    → (d ≡ zone) ⊎ ((parent : Bytes) × (after_dot d ≡ some parent) × IsUnder parent zone)
IsUnder-after_dot d zone ([], e) = inl (split-injective d zone e)
IsUnder-after_dot d zone (l ∷ front, e) = elim (Option-cases (after_dot d)) [
  | inl last ↦ absurd (ends front zone (after_dot-none d last) e)
  | inr (parent, a) ↦
      let (k, t) = after_dot-some d a in inr (parent, a, (front, ground (arith, t, e)))
]

shorter_parent :
    (d parent : Bytes) (fuel : ℕ)
    → after_dot d ≡ some parent
    → length d < suc fuel
    → length parent < fuel
shorter_parent d parent fuel a lt = omega (arith, length-after_dot d a)

Covers-walk_loop :
    (fuel : ℕ) (keys : List Bytes) (d : Bytes) (zone : Bytes)
    → length d < fuel
    → has_key keys zone ≡ true
    → IsUnder d zone
    → walk_loop fuel keys d ≡ true
unfolding walk_loop
Covers-walk_loop zero keys d zone lt k u = absurd (omega arith)
Covers-walk_loop (suc fuel) keys d zone lt k u = elim (IsUnder-after_dot d zone u) [
  | inl same ↦ let h : has_key keys d ≡ true = rw same k in rw h
  | inr (parent, a, v) ↦
      ground (arith, Covers-walk_loop fuel keys parent zone (shorter_parent d parent fuel a lt) k v)
]

-- The walk answers yes exactly when a key is the name or a parent of it.
pub walk_iff : (keys : List Bytes) (name : Bytes) → (walk keys name ≡ true) ↔ Covers keys name
unfolding walk
walk_iff keys name =
    (walk_loop-Covers _ keys name, λ c. Covers-walk_loop _ keys name c.0 (omega arith) c.1 c.2)
