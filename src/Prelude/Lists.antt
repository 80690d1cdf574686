-- ===== src/Prelude/Lists.antt =====
-- Lists measured, indexed and cut by native numbers, under the library's names.
use Prim.Native.Nat.{ℕ, zero, suc, ◌+◌, ◌-◌, ◌≤◌, ◌<◌, min}
use mathlib.Core.Path.{◌≡◌, refl, ap}
use mathlib.Core.List.{List, [], ◌∷◌, ◌++◌}
use mathlib.Core.Option.{Option, none, some}
use native.Mathlib.Numerals.{add-one}
use native.Mathlib.Omega.{arith}

module _ {ℓ} {A : Type ℓ} where
  abbrev pub length : List A → ℕ
  length [] = 0
  length (x ∷ xs) = suc (length xs)

  abbrev pub get_elem? : List A → ℕ → Option A
  get_elem? [] i = none
  get_elem? (x ∷ xs) zero = some x
  get_elem? (x ∷ xs) (suc i) = get_elem? xs i

  abbrev pub get_or : List A → ℕ → A → A
  get_or [] i d = d
  get_or (x ∷ xs) zero d = x
  get_or (x ∷ xs) (suc i) d = get_or xs i d

  abbrev pub take : ℕ → List A → List A
  take zero xs = []
  take (suc n) [] = []
  take (suc n) (x ∷ xs) = x ∷ take n xs

  abbrev pub drop : ℕ → List A → List A
  drop zero xs = xs
  drop (suc n) [] = []
  drop (suc n) (x ∷ xs) = drop n xs

  pub take-append-drop : (n : ℕ) (xs : List A) → take n xs ++ drop n xs ≡ xs
  take-append-drop zero xs = refl
  take-append-drop (suc n) [] = refl
  take-append-drop (suc n) (x ∷ xs) = rw (take-append-drop n xs)

  pub length-append : (xs ys : List A) → length (xs ++ ys) ≡ length xs + length ys
  length-append [] ys = omega arith
  length-append (x ∷ xs) ys = omega (arith, length-append xs ys)

  pub length-take : (n : ℕ) (xs : List A) → length (take n xs) ≡ min n (length xs)
  length-take zero xs = omega arith
  length-take (suc n) [] = omega arith
  length-take (suc n) (x ∷ xs) = omega (arith, length-take n xs)

  pub length-drop : (n : ℕ) (xs : List A) → length (drop n xs) ≡ length xs - n
  length-drop zero xs = omega arith
  length-drop (suc n) [] = omega arith
  length-drop (suc n) (x ∷ xs) = omega (arith, length-drop n xs)

  -- What is cut off at the length of the first part is that part.
  pub take-append : (xs ys : List A) → take (length xs) (xs ++ ys) ≡ xs
  take-append [] ys = refl
  take-append (x ∷ xs) ys = ap (◌∷◌ x) (take-append xs ys)

  pub drop-append : (xs ys : List A) → drop (length xs) (xs ++ ys) ≡ ys
  drop-append [] ys = refl
  drop-append (x ∷ xs) ys = drop-append xs ys

  pub get_elem?-append :
      (xs ys : List A) (i : ℕ) {x : A} → get_elem? xs i ≡ some x → get_elem? (xs ++ ys) i ≡ some x
  get_elem?-append [] ys i h = cc
  get_elem?-append (y ∷ xs) ys zero h = h
  get_elem?-append (y ∷ xs) ys (suc i) h = get_elem?-append xs ys i h

  pub get_elem?-get_or :
      (xs : List A) (i : ℕ) (d : A) → i < length xs → get_elem? xs i ≡ some (get_or xs i d)
  get_elem?-get_or [] i d h = elim h [ ]
  get_elem?-get_or (x ∷ xs) zero d h = refl
  get_elem?-get_or (x ∷ xs) (suc i) d h = get_elem?-get_or xs i d (omega arith)

  pub get_or-get_elem? :
      (xs : List A) (i : ℕ) (d : A) {x : A}
      → get_elem? xs i ≡ some x
      → (i < length xs) × (get_or xs i d ≡ x)
  get_or-get_elem? [] i d h = cc
  get_or-get_elem? (y ∷ xs) zero d h = (omega arith, cc)
  get_or-get_elem? (y ∷ xs) (suc i) d h = let (a, b) = get_or-get_elem? xs i d h in (omega arith, b)

  -- What stands right behind the first part, at a place known to be its length.
  pub get_elem?-end :
      (xs ys : List A) (y : A) {i : ℕ} → i ≡ length xs → get_elem? (xs ++ y ∷ ys) i ≡ some y
  get_elem?-end xs ys y e = rw e (go xs)
    where
      go : (xs : List A) → get_elem? (xs ++ y ∷ ys) (length xs) ≡ some y
      go [] = refl
      go (x ∷ xs) = go xs

  -- A cut that lies inside the first part does not see the second.
  pub take-drop-append :
      (k n : ℕ) (xs ys : List A)
      → k + n ≤ length xs
      → take n (drop k (xs ++ ys)) ≡ take n (drop k xs)
  take-drop-append zero zero xs ys h = refl
  take-drop-append zero (suc n) [] ys h = absurd (omega arith)
  take-drop-append zero (suc n) (x ∷ xs) ys h =
      ap (◌∷◌ x) (take-drop-append zero n xs ys (omega arith))
  take-drop-append (suc k) n [] ys h = absurd (omega arith)
  take-drop-append (suc k) n (x ∷ xs) ys h = take-drop-append k n xs ys (omega arith)

  pub length-slice : (k n : ℕ) (xs : List A) → k + n ≤ length xs → length (take n (drop k xs)) ≡ n
  length-slice k n xs h = omega (arith, length-take n (drop k xs), length-drop k xs)

  pub get_elem?-end_next :
      (xs ys : List A) (y z : A) {i : ℕ}
      → i ≡ length xs
      → get_elem? (xs ++ y ∷ z ∷ ys) (i + 1) ≡ some z
  get_elem?-end_next xs ys y z e = rw (e, add-one) (go xs)
    where
      go : (xs : List A) → get_elem? (xs ++ y ∷ z ∷ ys) (suc (length xs)) ≡ some z
      go [] = refl
      go (x ∷ xs) = go xs

  pub drop-end : (xs ys : List A) (y : A) {i : ℕ} → i ≡ length xs → drop (i + 1) (xs ++ y ∷ ys) ≡ ys
  drop-end xs ys y e = rw (e, add-one) (go xs)
    where
      go : (xs : List A) → drop (suc (length xs)) (xs ++ y ∷ ys) ≡ ys
      go [] = refl
      go (x ∷ xs) = go xs
