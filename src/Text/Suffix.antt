-- ===== src/Text/Suffix.antt =====
-- Suffixes of texts, and the trailing dot.
use labyrinth.Prelude.{
  ℕ, zero, suc, ◌-◌, ◌<◌, ◌≡◌, false, refl, sym, ◌∙◌, List, [], ◌∷◌, ◌++◌, arith, Bytes, ◌==◌,
  length, take, inl, inr, Bool-cases,
}
use labyrinth.Text.{equal, lower_byte, to_lower, has_suffix, trim_suffix, join}
use labyrinth.Text.Labels.{IsDotless, IsLabels}

abbrev pub dot : Bytes
dot = b'.' ∷ []

has_dot-one : (c : ℕ) → has_suffix (c ∷ []) dot ≡ (c == b'.')
unfolding has_suffix equal
has_dot-one c = ground arith

-- Of two bytes or more, the first does not matter.
has_dot-cons : (c d : ℕ) (s : Bytes) → has_suffix (c ∷ d ∷ s) dot ≡ has_suffix (d ∷ s) dot
unfolding has_suffix
has_dot-cons c d s =
    let e : suc (suc (length s)) - 1 ≡ suc (suc (length s) - 1) = omega arith in rw e (ground arith)

has_dot-append :
    (xs : Bytes) (y : ℕ) (ys : Bytes) → has_suffix (xs ++ y ∷ ys) dot ≡ has_suffix (y ∷ ys) dot
has_dot-append [] y ys = refl
has_dot-append (x ∷ []) y ys = has_dot-cons x y ys
has_dot-append (x ∷ z ∷ xs) y ys = has_dot-cons x z (xs ++ y ∷ ys) ∙ has_dot-append (z ∷ xs) y ys

has_dot-IsDotless : (l : Bytes) → 0 < length l → IsDotless l → has_suffix l dot ≡ false
has_dot-IsDotless [] pos d = elim pos [ ]
has_dot-IsDotless (c ∷ []) pos (d, _) = has_dot-one c ∙ ground arith
has_dot-IsDotless (c ∷ e ∷ l) pos (d, ds) =
    has_dot-cons c e l ∙ has_dot-IsDotless (e ∷ l) (omega arith) ds

-- Joined labels do not end in a dot.
has_dot-join :
    (l : Bytes) (ls : List Bytes) → IsLabels (l ∷ ls) → has_suffix (join (l ∷ ls)) dot ≡ false
unfolding join
has_dot-join l [] (pos, d, _) = has_dot-IsDotless l pos d
has_dot-join l ((c ∷ k) ∷ []) (_, _, h) =
    has_dot-append l b'.' (c ∷ k) ∙ has_dot-cons b'.' c k ∙ has_dot-join (c ∷ k) [] h
has_dot-join l ((c ∷ k) ∷ m ∷ ls) (_, _, h) =
    has_dot-append l b'.' _ ∙ has_dot-cons b'.' c _ ∙ has_dot-join (c ∷ k) (m ∷ ls) h
has_dot-join l ([] ∷ ls) (_, _, h) = absurd (omega arith)

pub trim-join :
    (l : Bytes) (ls : List Bytes)
    → IsLabels (l ∷ ls)
    → trim_suffix (join (l ∷ ls)) dot ≡ join (l ∷ ls)
unfolding trim_suffix
trim-join l ls h = rw (has_dot-join l ls h)

-- Joined labels are neither the empty name nor the dot alone.
pub join-ne-root :
    (l : Bytes) (ls : List Bytes)
    → IsLabels (l ∷ ls)
    → (equal (join (l ∷ ls)) [] ≡ false) × (equal (join (l ∷ ls)) dot ≡ false)
unfolding join equal
join-ne-root [] ls h = absurd (omega arith)
join-ne-root (c ∷ l) [] (_, (d, _), _) = ground arith
join-ne-root (c ∷ l) (k ∷ ls) (_, (d, _), _) = ground arith

length-to_lower : (s : Bytes) → length (to_lower s) ≡ length s
unfolding to_lower
length-to_lower [] = refl
length-to_lower (c ∷ s) = omega (arith, length-to_lower s)

take-to_lower : (n : ℕ) (s : Bytes) → take n (to_lower s) ≡ to_lower (take n s)
unfolding to_lower
take-to_lower zero s = refl
take-to_lower (suc n) [] = refl
take-to_lower (suc n) (c ∷ s) = rw (take-to_lower n s) refl

has_dot-to_lower : (s : Bytes) → has_suffix (to_lower s) dot ≡ has_suffix s dot
unfolding to_lower
has_dot-to_lower [] = refl
has_dot-to_lower (c ∷ []) = ground (arith, has_dot-one (lower_byte c), has_dot-one c)
has_dot-to_lower (c ∷ d ∷ s) =
    has_dot-cons (lower_byte c) (lower_byte d) (to_lower s)
    ∙ has_dot-to_lower (d ∷ s)
    ∙ sym (has_dot-cons c d s)

-- A trailing dot is cut off before or after the case is changed.
pub trim-to_lower : (s : Bytes) → trim_suffix (to_lower s) dot ≡ to_lower (trim_suffix s dot)
unfolding trim_suffix
trim-to_lower s = elim (Bool-cases (has_suffix s dot)) [
  | inl h ↦ rw (has_dot-to_lower s, h, length-to_lower s) (take-to_lower (length s - 1) s)
  | inr h ↦ rw (has_dot-to_lower s, h) refl
]
