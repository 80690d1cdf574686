-- ===== src/Prelude/Select.antt =====
-- Loops that keep the items which pass a test, and what is a member of their result.
use labyrinth.Prelude.{
  Bool, true, List, [], ◌∷◌, ◌≡◌, ◌⊎◌, ◌↔◌, inl, inr, Bool-cases, if◌then◌else◌, refl, ap,
}

module _ {A : Type 0} where
  -- `a` stands in the list.
  abbrev pub Member : A → List A → Type 0
  Member a [] = ⊥
  Member a (x ∷ xs) = (x ≡ a) ⊎ Member a xs

  unfoldable pub select : (A → Bool) → List A → List A
  select test [] = []
  select test (x ∷ xs) = if test x then x ∷ select test xs else select test xs

  head_case :
      (test : A → Bool) (a x : A) (xs ys : List A)
      → test x ≡ true
      → (Member a ys → Member a xs × (test a ≡ true))
      → Member a (x ∷ ys)
      → Member a (x ∷ xs) × (test a ≡ true)
  head_case test a x xs ys t ih (inl e) = (inl e, rw (← e) t)
  head_case test a x xs ys t ih (inr m) = let (n, u) = ih m in (inr n, u)

  Member-select-from :
      (test : A → Bool) (a : A) (xs : List A)
      → Member a (select test xs)
      → Member a xs × (test a ≡ true)
  unfolding select
  Member-select-from test a [] m = absurd m
  Member-select-from test a (x ∷ xs) m = elim (Bool-cases (test x)) [
    | inl t ↦ head_case test a x xs (select test xs) t (Member-select-from test a xs) (rw t at m)
    | inr f ↦ let (n, u) = Member-select-from test a xs (rw f at m) in (inr n, u)
  ]

  Member-select-to :
      (test : A → Bool) (a : A) (xs : List A)
      → Member a xs
      → test a ≡ true
      → Member a (select test xs)
  unfolding select
  Member-select-to test a [] m t = absurd m
  Member-select-to test a (x ∷ xs) (inl e) t = let s : test x ≡ true = rw e t in rw s (inl e)
  Member-select-to test a (x ∷ xs) (inr m) t = elim (Bool-cases (test x)) [
    | inl s ↦ rw s (inr (Member-select-to test a xs m t))
    | inr f ↦ rw f (Member-select-to test a xs m t)
  ]

  -- What is kept is what was there and passes.
  pub Member-select :
      (test : A → Bool) (a : A) (xs : List A)
      → Member a (select test xs) ↔ (Member a xs × (test a ≡ true))
  Member-select test a xs = (Member-select-from test a xs, λ h. Member-select-to test a xs h.0 h.1)

  pub select-select :
      (test : A → Bool) (xs : List A) → select test (select test xs) ≡ select test xs
  unfolding select
  select-select test [] = refl
  select-select test (x ∷ xs) = elim (Bool-cases (test x)) [
    | inl t ↦ rw (t, t) (ap (◌∷◌ x) (select-select test xs))
    | inr f ↦ rw f (select-select test xs)
  ]
