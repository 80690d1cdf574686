-- ===== src/Resolver/Inflight/Coherent.antt =====
-- Which calls of resolver/inflight.go are open, and who has them.
use labyrinth.Prelude.{
  ℕ, ◌<◌, ◌≡◌, ◌≢◌, ◌⊎◌, ◌∙◌, subst, Option, none, some, Bytes, refl, arith, inl, inr, Bool-cases,
  ◌==◌,
}
use labyrinth.Text.{equal}
use labyrinth.Text.Labels.{equal_iff, equal_refl}
use labyrinth.Resolver.Inflight.{
  Place, outside, running, leaving, waiting, returned, Inflight, new_inflight, set, set_key,
}

pub set-same {ℓ} : {A : Type ℓ} (t : ℕ) (x : A) (f : ℕ → A) → set t x f t ≡ x
unfolding set
set-same t x f = ground arith

pub set-other {ℓ} : {A : Type ℓ} (t : ℕ) (x : A) (f : ℕ → A) (u : ℕ) → u ≢ t → set t x f u ≡ f u
unfolding set
set-other t x f u other = ground arith

pub set_key-same : (key : Bytes) (c : Option ℕ) (f : Bytes → Option ℕ) → set_key key c f key ≡ c
unfolding set_key
set_key-same key c f = rw (equal_refl key) refl

pub set_key-other :
    (key : Bytes) (c : Option ℕ) (f : Bytes → Option ℕ) (k : Bytes)
    → k ≢ key
    → set_key key c f k ≡ f k
unfolding set_key
set_key-other key c f k other = elim (Bool-cases (equal k key)) [
  | inl e ↦ absurd (other ((equal_iff k key).0 e))
  | inr e ↦ rw e refl
]

pub either_number : (u t : ℕ) → (u ≡ t) ⊎ (u ≢ t)
either_number u t = elim (Bool-cases (u == t)) [
  | inl e ↦ inl (ground arith)
  | inr e ↦ inr λ h. ground arith
]

pub either_key : (k key : Bytes) → (k ≡ key) ⊎ (k ≢ key)
either_key k key = elim (Bool-cases (equal k key)) [
  | inl e ↦ inl ((equal_iff k key).0 e)
  | inr e ↦ inr λ h. ground (arith, (equal_iff k key).1 h)
]

module _ {A : Type 0} where
  -- The call was allocated for this key.
  abbrev pub IsFor : Inflight A → Bytes → ℕ → Type 0
  IsFor s k c = (c < s.next) × ((s.heap c).key ≡ k)

  -- What is so of a goroutine in each place.
  abbrev pub Fits : Inflight A → ℕ → Place A → Type 0
  Fits s t outside = Unit
  Fits s t (running k c) =
      IsFor s k c × ((s.heap c).owner ≡ t) × ((s.heap c).outcome ≡ none) × (s.calls k ≡ some c)
  Fits s t (leaving k c) =
      IsFor s k c × ((s.heap c).owner ≡ t) × ((s.heap c).outcome ≢ none) × (s.calls k ≡ some c)
  Fits s t (waiting k c) = IsFor s k c
  Fits s t (returned k c r) = IsFor s k c × ((s.heap c).outcome ≡ some r)

  -- The goroutine runs the call, or is about to delete its key.
  abbrev pub Has : Inflight A → ℕ → Bytes → ℕ → Type 0
  Has s t k c = (s.places t ≡ running k c) ⊎ (s.places t ≡ leaving k c)

  -- The map holds exactly the calls that a goroutine has, and a call without an outcome is run.
  pub record IsCoherent (s : Inflight A) : Type 0 where
    pub fits : (t : ℕ) → Fits s t (s.places t)
    pub held : (k : Bytes) (c : ℕ) → s.calls k ≡ some c → IsFor s k c × Has s (s.heap c).owner k c
    pub unfinished :
        (c : ℕ)
        → c < s.next
        → (s.heap c).outcome ≡ none
        → s.places (s.heap c).owner ≡ running (s.heap c).key c

  pub new_inflight-IsCoherent : IsCoherent (new_inflight A)
  new_inflight-IsCoherent = record {
    fits = λ t. tt;
    held = λ k c e. cc;
    unfinished = λ c l. ground arith;
  }

  -- What is so of a place does not hang on the places of others.
  pub Fits-places :
      (s : Inflight A) (f : ℕ → Place A) (t : ℕ) (p : Place A)
      → Fits s t p
      → Fits (record s { places = f }) t p
  Fits-places s f t outside h = tt
  Fits-places s f t (running k c) h = h
  Fits-places s f t (leaving k c) h = h
  Fits-places s f t (waiting k c) h = h
  Fits-places s f t (returned k c r) h = h

  -- The place of another goroutine is what it was.
  pub Has-set :
      (s : Inflight A) (t : ℕ) (p : Place A) (u : ℕ) (k : Bytes) (c : ℕ)
      → u ≢ t
      → Has s u k c
      → Has (record s { places = set t p s.places }) u k c
  Has-set s t p u k c n has = rw (set-other t p s.places u n) has

  -- A goroutine waits for a call, or returns what it has: nothing else changes.
  pub move-IsCoherent :
      (s : Inflight A) (t : ℕ) (p : Place A)
      → IsCoherent s
      → Fits s t p
      → ((k : Bytes) (c : ℕ) → ¬ Has s t k c)
      → IsCoherent (record s { places = set t p s.places })
  move-IsCoherent s t p coherent fit idle =
      let other = λ (u : ℕ) (k : Bytes) (c : ℕ) (has : Has s u k c) (e : u ≡ t).
        idle k c (subst (λ (x : ℕ). Has s x k c) e has) in
      record {
        fits = λ u. elim (either_number u t) [
          | inl e ↦ rw (e, set-same t p s.places) (Fits-places s (set t p s.places) t p fit)
          | inr n ↦
              rw (set-other t p s.places u n)
                (Fits-places s (set t p s.places) u (s.places u) (coherent.fits u))
        ];
        held = λ k c e.
            let (for, has) = coherent.held k c e in
            (for, Has-set s t p (s.heap c).owner k c (other _ k c has) has);
        unfinished = λ c l e.
            let runs = coherent.unfinished c l e in
            set-other t p s.places _ (other _ (s.heap c).key c (inl runs)) ∙ runs;
      }
