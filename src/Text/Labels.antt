-- ===== src/Text/Labels.antt =====
-- Names as lists of labels.
use labyrinth.Prelude.{
  ℕ, ◌+◌, ◌*◌, ◌≤◌, ◌<◌, true, ◌≡◌, ◌≢◌, ◌↔◌, refl, ap, ◌∙◌, sym, List, [], ◌∷◌, ◌++◌, arith, Bytes,
  ◌==◌, ==_iff, Bool-cases, length, length-append, inl, inr,
}
use labyrinth.Text.{equal, split, join}

pub equal_iff : (a b : Bytes) → (equal a b ≡ true) ↔ (a ≡ b)
unfolding equal
equal_iff [] [] = ground arith
equal_iff [] (d ∷ b) = ground arith
equal_iff (c ∷ a) [] = ground arith
equal_iff (c ∷ a) (d ∷ b) = ground (arith, equal_iff a b)

pub equal_refl : (a : Bytes) → equal a a ≡ true
equal_refl a = (equal_iff a a).1 refl

-- No byte of the label is a dot.
abbrev pub IsDotless : Bytes → Type 0
IsDotless [] = Unit {0}
IsDotless (c ∷ cs) = (c ≢ b'.') × IsDotless cs

abbrev pub AllDotless : List Bytes → Type 0
AllDotless [] = Unit {0}
AllDotless (l ∷ ls) = IsDotless l × AllDotless ls

-- The labels of a name: not empty, and free of dots.
abbrev pub IsLabels : List Bytes → Type 0
IsLabels [] = Unit {0}
IsLabels (l ∷ ls) = (0 < length l) × IsDotless l × IsLabels ls

pub IsLabels-AllDotless : (ls : List Bytes) → IsLabels ls → AllDotless ls
IsLabels-AllDotless [] h = tt
IsLabels-AllDotless (l ∷ ls) (_, d, h) = (d, IsLabels-AllDotless ls h)

pub split_label : (l : Bytes) → IsDotless l → split l ≡ l ∷ []
unfolding split
split_label [] d = refl
split_label (c ∷ cs) (d, ds) = ground (arith, split_label cs ds)

split_label_dot : (l cs : Bytes) → IsDotless l → split (l ++ (b'.' ∷ cs)) ≡ l ∷ split cs
unfolding split
split_label_dot [] cs d = refl
split_label_dot (c ∷ l) cs (d, ds) = ground (arith, split_label_dot l cs ds)

-- Labels are found again in the text that joins them.
pub split-join :
    (l : Bytes) (ls : List Bytes) → AllDotless (l ∷ ls) → split (join (l ∷ ls)) ≡ l ∷ ls
unfolding join
split-join l [] (d, _) = split_label l d
split-join l (k ∷ ls) (d, ds) = split_label_dot l _ d ∙ ap (◌∷◌ l) (split-join k ls ds)

join-cons_head : (c : ℕ) (l : Bytes) (ls : List Bytes) → join ((c ∷ l) ∷ ls) ≡ c ∷ join (l ∷ ls)
unfolding join
join-cons_head c l [] = refl
join-cons_head c l (k ∷ ls) = refl

-- A text is split into at least one piece; joined, they are the text.
pub split_pieces :
    (s : Bytes) → (l : Bytes) × (ls : List Bytes) × (split s ≡ l ∷ ls) × (join (l ∷ ls) ≡ s)
unfolding split join
split_pieces [] = ([], [], refl, refl)
split_pieces (c ∷ cs) =
    let (l, ls, e, j) = split_pieces cs in
    elim (Bool-cases (c == b'.')) [
      | inl dot ↦ ([], l ∷ ls, ground arith, ground (arith, ==_iff c b'.'))
      | inr other ↦ (c ∷ l, ls, ground arith, join-cons_head c l ls ∙ ap (◌∷◌ c) j)
    ]

pub join-split : (s : Bytes) → join (split s) ≡ s
join-split s = let (l, ls, e, j) = split_pieces s in ap join e ∙ j

pub split-AllDotless : (s : Bytes) → AllDotless (split s)
unfolding split
split-AllDotless [] = (tt, tt)
split-AllDotless (c ∷ cs) =
    let (l, ls, e, j) = split_pieces cs in let h = split-AllDotless cs in ground (arith, e)

-- The joined text tells the labels.
pub join-injective : (ls ks : List Bytes) → IsLabels ls → IsLabels ks → join ls ≡ join ks → ls ≡ ks
unfolding join
join-injective [] [] h k e = refl
join-injective [] ((c ∷ l) ∷ []) h k e = cc
join-injective [] ((c ∷ l) ∷ m ∷ ls) h k e = cc
join-injective ((c ∷ l) ∷ []) [] h k e = cc
join-injective ((c ∷ l) ∷ m ∷ ls) [] h k e = cc
join-injective [] ([] ∷ ks) h (p, _, _) e = absurd (omega arith)
join-injective ([] ∷ ks) [] (p, _, _) k e = absurd (omega arith)
join-injective (l ∷ ls) (k ∷ ks) h h' e =
    sym (split-join l ls (IsLabels-AllDotless (l ∷ ls) h))
    ∙ ap split e
    ∙ split-join k ks (IsLabels-AllDotless (k ∷ ks) h')

-- Each label but the last costs its bytes and a dot.
pub length-join-cons :
    (l k : Bytes) (ls : List Bytes)
    → length (join (l ∷ k ∷ ls)) ≡ length l + 1 + length (join (k ∷ ls))
unfolding join
length-join-cons l k ls = omega (arith, length-append l (b'.' ∷ join (k ∷ ls)))

-- A name of `n` bytes has at most half as many labels.
pub labels-le-length : (ls : List Bytes) → IsLabels ls → length ls * 2 ≤ length (join ls) + 1
unfolding join
labels-le-length [] h = omega arith
labels-le-length (l ∷ []) h = omega arith
labels-le-length (l ∷ k ∷ ls) h =
    omega (arith, length-append l (b'.' ∷ join (k ∷ ls)), labels-le-length (k ∷ ls) h.2)

pub length-join-lt :
    (l : Bytes) (ls : List Bytes) → 0 < length l → length (join ls) < length (join (l ∷ ls))
unfolding join
length-join-lt l [] pos = pos
length-join-lt l (k ∷ ls) pos = omega (arith, length-append l (b'.' ∷ join (k ∷ ls)))
