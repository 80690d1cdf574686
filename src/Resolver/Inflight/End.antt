-- ===== src/Resolver/Inflight/End.antt =====
-- A goroutine ends the call that it runs, in resolver/inflight.go.
use labyrinth.Prelude.{ℕ, ◌≡◌, ◌≢◌, ◌∙◌, subst, sym, ap, none, some, Bytes, inl, inr}
use labyrinth.Resolver.Inflight.{
  Outcome, Call, Place, outside, running, leaving, waiting, returned, Inflight, finish,
}
use labyrinth.Resolver.Inflight.Coherent.{
  set-same, set-other, either_number, IsFor, Fits, Has, IsCoherent, Has-set,
}

module _ {A : Type 0} where
  -- What the goroutine makes that runs the call.
  abbrev pub ended : Outcome A → ℕ → Bytes → ℕ → Inflight A → Inflight A
  ended r t k c s = finish r t (running k c) s

  same_key :
      (s : Inflight A) (r : Outcome A) (t : ℕ) (k : Bytes) (c d : ℕ)
      → ((ended r t k c s).heap d).key ≡ (s.heap d).key
  same_key s r t k c d = elim (either_number d c) [
    | inl e ↦
        rw e
          (ap (λ (x : Call A). x.key) (set-same c (record (s.heap c) { outcome = some r }) s.heap))
    | inr n ↦
        ap (λ (x : Call A). x.key) (set-other c (record (s.heap c) { outcome = some r }) s.heap d n)
  ]

  same_owner :
      (s : Inflight A) (r : Outcome A) (t : ℕ) (k : Bytes) (c d : ℕ)
      → ((ended r t k c s).heap d).owner ≡ (s.heap d).owner
  same_owner s r t k c d = elim (either_number d c) [
    | inl e ↦
        rw e (
          ap (λ (x : Call A). x.owner) (set-same c (record (s.heap c) { outcome = some r }) s.heap))
    | inr n ↦
        ap (λ (x : Call A). x.owner)
          (set-other c (record (s.heap c) { outcome = some r }) s.heap d n)
  ]

  now_done :
      (s : Inflight A) (r : Outcome A) (t : ℕ) (k : Bytes) (c : ℕ)
      → ((ended r t k c s).heap c).outcome ≡ some r
  now_done s r t k c =
      ap (λ (x : Call A). x.outcome) (set-same c (record (s.heap c) { outcome = some r }) s.heap)

  others_outcome :
      (s : Inflight A) (r : Outcome A) (t : ℕ) (k : Bytes) (c d : ℕ)
      → d ≢ c
      → ((ended r t k c s).heap d).outcome ≡ (s.heap d).outcome
  others_outcome s r t k c d n =
      ap (λ (x : Call A). x.outcome)
        (set-other c (record (s.heap c) { outcome = some r }) s.heap d n)

  IsFor-ended :
      (s : Inflight A) (r : Outcome A) (t : ℕ) (k : Bytes) (c : ℕ) (k' : Bytes) (d : ℕ)
      → IsFor s k' d
      → IsFor (ended r t k c s) k' d
  IsFor-ended s r t k c k' d (l, e) = (l, same_key s r t k c d ∙ e)

  -- Another goroutine's facts, where the call was run by the goroutine and had no outcome.
  Fits-ended :
      (s : Inflight A) (r : Outcome A) (t : ℕ) (k : Bytes) (c u : ℕ) (p : Place A)
      → Fits s t (running k c)
      → u ≢ t
      → Fits s u p
      → Fits (ended r t k c s) u p
  Fits-ended s r t k c u outside mine n h = tt
  Fits-ended s r t k c u (running k' d) (_, owner, _, _) n (for, owner', pending, listed) =
      let differ : d ≢ c = λ e. n (sym owner' ∙ ap (λ (x : ℕ). (s.heap x).owner) e ∙ owner) in
      (
        IsFor-ended s r t k c k' d for,
        same_owner s r t k c d ∙ owner',
        others_outcome s r t k c d differ ∙ pending,
        listed,
      )
  Fits-ended s r t k c u (leaving k' d) (_, owner, _, _) n (for, owner', done, listed) =
      let differ : d ≢ c = λ e. n (sym owner' ∙ ap (λ (x : ℕ). (s.heap x).owner) e ∙ owner) in
      (
        IsFor-ended s r t k c k' d for,
        same_owner s r t k c d ∙ owner',
        rw (others_outcome s r t k c d differ) done,
        listed,
      )
  Fits-ended s r t k c u (waiting k' d) mine n for = IsFor-ended s r t k c k' d for
  Fits-ended s r t k c u (returned k' d r') (_, _, pending, _) n (for, has) =
      let differ : d ≢ c = λ e.
        let gone : none ≡ some r' =
          sym pending ∙ ap (λ (x : ℕ). (s.heap x).outcome) (sym e) ∙ has in
        cc in
      (IsFor-ended s r t k c k' d for, others_outcome s r t k c d differ ∙ has)

  own-ended :
      (s : Inflight A) (r : Outcome A) (t : ℕ) (k : Bytes) (c : ℕ)
      → Fits s t (running k c)
      → Fits (ended r t k c s) t (leaving k c)
  own-ended s r t k c (for, owner, pending, listed) = (
    IsFor-ended s r t k c k c for,
    same_owner s r t k c c ∙ owner,
    (λ e. let given = now_done s r t k c in cc),
    listed,
  )

  -- A goroutine that runs one call has no other.
  same_call :
      (s : Inflight A) (t : ℕ) (k : Bytes) (c : ℕ) (k' : Bytes) (d : ℕ)
      → s.places t ≡ running k c
      → Has s t k' d
      → ◌≡◌ {A = Place A} (leaving k c) (leaving k' d)
  same_call s t k c k' d at (inl h) = let e : running k c ≡ running k' d = sym at ∙ h in cc
  same_call s t k c k' d at (inr h) = let e : running k c ≡ leaving k' d = sym at ∙ h in cc

  same_number :
      (s : Inflight A) (t : ℕ) (k : Bytes) (c : ℕ) (k' : Bytes) (d : ℕ)
      → s.places t ≡ running k c
      → s.places t ≡ running k' d
      → d ≡ c
  same_number s t k c k' d at h = let e : running k c ≡ running k' d = sym at ∙ h in cc

  Has-ended :
      (s : Inflight A) (r : Outcome A) (t : ℕ) (k : Bytes) (c u : ℕ) (k' : Bytes) (d : ℕ)
      → s.places t ≡ running k c
      → Has s u k' d
      → Has (ended r t k c s) u k' d
  Has-ended s r t k c u k' d at has = elim (either_number u t) [
    | inl e ↦
        inr (rw (e, set-same t (leaving k c) s.places) (same_call s t k c k' d at (rw e at has)))
    | inr n ↦ Has-set s t (leaving k c) u k' d n has
  ]

  pub ended-IsCoherent :
      (s : Inflight A) (r : Outcome A) (t : ℕ) (k : Bytes) (c : ℕ)
      → IsCoherent s
      → s.places t ≡ running k c
      → IsCoherent (ended r t k c s)
  ended-IsCoherent s r t k c coherent at =
      let mine : Fits s t (running k c) = subst (Fits s t) at (coherent.fits t) in
      record {
        fits = λ u. elim (either_number u t) [
          | inl e ↦ rw (e, set-same t (leaving k c) s.places) (own-ended s r t k c mine)
          | inr n ↦
              rw (set-other t (leaving k c) s.places u n)
                (Fits-ended s r t k c u (s.places u) mine n (coherent.fits u))
        ];
        held = λ k' d e.
            let (for, has) = coherent.held k' d e in
            (
              IsFor-ended s r t k c k' d for,
              rw (same_owner s r t k c d) (Has-ended s r t k c (s.heap d).owner k' d at has),
            );
        unfinished = λ d l e. elim (either_number d c) [
          | inl same ↦ let given = now_done s r t k c in let gone = rw same at e in cc
          | inr n ↦
              let pending : (s.heap d).outcome ≡ none = sym (others_outcome s r t k c d n) ∙ e in
              let runs = coherent.unfinished d l pending in
              let other : (s.heap d).owner ≢ t =
                λ h. n (same_number s t k c (s.heap d).key d at (rw h at runs)) in
              rw (same_owner s r t k c d, same_key s r t k c d)
                (set-other t (leaving k c) s.places (s.heap d).owner other ∙ runs)
        ];
      }
