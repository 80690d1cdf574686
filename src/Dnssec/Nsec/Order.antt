-- ===== src/Dnssec/Nsec/Order.antt =====
-- The laws of an order, for bytes, labels and sequences of labels.
use labyrinth.Prelude.{List, [], ◌∷◌, ◌≡◌, ◌⊎◌, inl, inr, arith, refl, ap, sym, ◌∙◌}
use labyrinth.Dnssec.Nsec.{
  Ordering, less, same, greater, compare_with, compare_byte, compare_label_bytes,
}

-- The other way round.
abbrev pub opposite : Ordering → Ordering
opposite less = greater
opposite same = same
opposite greater = less

-- A strict total order: `same` is equality, the arguments may be swapped, and `less` is transitive.
pub record IsOrder {A : Type 0} (cmp : A → A → Ordering) : Type 0 where
  pub same_eq : (a b : A) → cmp a b ≡ same → a ≡ b
  pub same_refl : (a : A) → cmp a a ≡ same
  pub swapped : (a b : A) → cmp b a ≡ opposite (cmp a b)
  pub less_trans : (a b c : A) → cmp a b ≡ less → cmp b c ≡ less → cmp a c ≡ less

pub compare_byte-IsOrder : IsOrder compare_byte
unfolding compare_byte
compare_byte-IsOrder = record {
  same_eq = λ a b h. ground arith;
  same_refl = λ a. ground arith;
  swapped = λ a b. ground arith;
  less_trans = λ a b c h k. ground arith;
}

Ordering-cases : (r : Ordering) → (r ≡ less) ⊎ (r ≡ same) ⊎ (r ≡ greater)
Ordering-cases less = inl refl
Ordering-cases same = inr (inl refl)
Ordering-cases greater = inr (inr refl)

module _ {A : Type 0} (cmp : A → A → Ordering) (o : IsOrder cmp) where
  -- One element more in front: the elements decide, or they are equal.
  front_less :
      (x y : A) (xs ys : List A) → cmp x y ≡ less → compare_with cmp (x ∷ xs) (y ∷ ys) ≡ less
  unfolding compare_with
  front_less x y xs ys h = rw (compare_with, h) refl

  front_same :
      (x y : A) (xs ys : List A)
      → cmp x y ≡ same
      → compare_with cmp (x ∷ xs) (y ∷ ys) ≡ compare_with cmp xs ys
  unfolding compare_with
  front_same x y xs ys h = rw (compare_with, h) refl

  front_greater :
      (x y : A) (xs ys : List A) → cmp x y ≡ greater → compare_with cmp (x ∷ xs) (y ∷ ys) ≡ greater
  unfolding compare_with
  front_greater x y xs ys h = rw (compare_with, h) refl

  with-same_eq : (xs ys : List A) → compare_with cmp xs ys ≡ same → xs ≡ ys
  with-same_eq [] [] h = refl
  with-same_eq [] (y ∷ ys) h = absurd (unfold compare_with in cc)
  with-same_eq (x ∷ xs) [] h = absurd (unfold compare_with in cc)
  with-same_eq (x ∷ xs) (y ∷ ys) h = elim (Ordering-cases (cmp x y)) [
    | inl l ↦ absurd (cc (h, front_less x y xs ys l))
    | inr (inl e) ↦
        let t : xs ≡ ys = with-same_eq xs ys (sym (front_same x y xs ys e) ∙ h) in
        ap (λ a. a ∷ xs) (o.same_eq x y e) ∙ ap (◌∷◌ y) t
    | inr (inr g) ↦ absurd (cc (h, front_greater x y xs ys g))
  ]

  with-same_refl : (xs : List A) → compare_with cmp xs xs ≡ same
  with-same_refl [] = unfold compare_with in refl
  with-same_refl (x ∷ xs) = front_same x x xs xs (o.same_refl x) ∙ with-same_refl xs

  with-swapped : (xs ys : List A) → compare_with cmp ys xs ≡ opposite (compare_with cmp xs ys)
  with-swapped [] [] = unfold compare_with in refl
  with-swapped [] (y ∷ ys) = unfold compare_with in refl
  with-swapped (x ∷ xs) [] = unfold compare_with in refl
  with-swapped (x ∷ xs) (y ∷ ys) = elim (Ordering-cases (cmp x y)) [
    | inl l ↦
        front_greater y x ys xs (o.swapped x y ∙ ap opposite l)
        ∙ sym (ap opposite (front_less x y xs ys l))
    | inr (inl e) ↦
        front_same y x ys xs (o.swapped x y ∙ ap opposite e)
        ∙ with-swapped xs ys
        ∙ sym (ap opposite (front_same x y xs ys e))
    | inr (inr g) ↦
        front_less y x ys xs (o.swapped x y ∙ ap opposite g)
        ∙ sym (ap opposite (front_greater x y xs ys g))
  ]

  with-less_trans :
      (xs ys zs : List A)
      → compare_with cmp xs ys ≡ less
      → compare_with cmp ys zs ≡ less
      → compare_with cmp xs zs ≡ less
  with-less_trans [] [] zs h k = absurd (unfold compare_with in cc)
  with-less_trans [] (y ∷ ys) [] h k = absurd (unfold compare_with in cc)
  with-less_trans [] (y ∷ ys) (z ∷ zs) h k = unfold compare_with in refl
  with-less_trans (x ∷ xs) [] zs h k = absurd (unfold compare_with in cc)
  with-less_trans (x ∷ xs) (y ∷ ys) [] h k = absurd (unfold compare_with in cc)
  with-less_trans (x ∷ xs) (y ∷ ys) (z ∷ zs) h k = elim (Ordering-cases (cmp x y)) [
    | inr (inr g) ↦ absurd (cc (h, front_greater x y xs ys g))
    | inl l ↦ elim (Ordering-cases (cmp y z)) [
      | inr (inr g) ↦ absurd (cc (k, front_greater y z ys zs g))
      | inl m ↦ front_less x z xs zs (o.less_trans x y z l m)
      | inr (inl e) ↦ front_less x z xs zs (sym (ap (cmp x) (o.same_eq y z e)) ∙ l)
    ]
    | inr (inl d) ↦
        let s : x ≡ y = o.same_eq x y d in
        elim (Ordering-cases (cmp y z)) [
          | inr (inr g) ↦ absurd (cc (k, front_greater y z ys zs g))
          | inl m ↦ front_less x z xs zs (ap (λ t. cmp t z) s ∙ m)
          | inr (inl e) ↦
              front_same x z xs zs (ap (λ t. cmp t z) s ∙ e)
              ∙ with-less_trans xs ys zs (sym (front_same x y xs ys d) ∙ h)
                  (sym (front_same y z ys zs e) ∙ k)
        ]
  ]

  pub compare_with-IsOrder : IsOrder (compare_with cmp)
  compare_with-IsOrder = record {
    same_eq = with-same_eq;
    same_refl = with-same_refl;
    swapped = with-swapped;
    less_trans = with-less_trans;
  }

pub compare_label_bytes-IsOrder : IsOrder compare_label_bytes
unfolding compare_label_bytes
compare_label_bytes-IsOrder = compare_with-IsOrder compare_byte compare_byte-IsOrder
