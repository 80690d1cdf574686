-- ===== src/Resolver/Inflight/Delete.antt =====
-- A goroutine deletes the key of its call, in resolver/inflight.go.
use labyrinth.Prelude.{ℕ, ◌≡◌, ◌≢◌, ◌∙◌, subst, sym, ap, Option, none, some, Bytes, inl, inr}
use labyrinth.Resolver.Inflight.{
  Outcome, Place, outside, running, leaving, waiting, returned, Inflight, set, set_key,
}
use labyrinth.Resolver.Inflight.Coherent.{
  set-same, set-other, set_key-same, set_key-other, either_number, either_key, Fits, Has,
  IsCoherent, Fits-places, Has-set,
}

none-some : (d : ℕ) → ◌≡◌ {A = Option ℕ} none (some d) → ⊥
none-some d e = cc

module _ {A : Type 0} where
  -- What the goroutine makes that deletes the key.
  abbrev pub deleted : Bytes → Inflight A → Inflight A
  deleted k s = record s { calls = set_key k none s.calls }

  abbrev pub released : ℕ → Bytes → ℕ → Outcome A → Inflight A → Inflight A
  released t k c r s = record (deleted k s) { places = set t (returned k c r) s.places }

  listed-deleted :
      (s : Inflight A) (t : ℕ) (k : Bytes) (c u : ℕ) (k' : Bytes) (d : ℕ)
      → Fits s t (leaving k c)
      → u ≢ t
      → (s.heap d).owner ≡ u
      → s.calls k' ≡ some d
      → (deleted k s).calls k' ≡ some d
  listed-deleted s t k c u k' d (_, owner, _, listed) n owner' listed' = elim (either_key k' k) [
    | inl e ↦
        let here : s.calls k ≡ some d = rw e at listed' in
        let same : d ≡ c = cc in
        absurd (n (sym owner' ∙ ap (λ (x : ℕ). (s.heap x).owner) same ∙ owner))
    | inr other ↦ set_key-other k none s.calls k' other ∙ listed'
  ]

  Fits-deleted :
      (s : Inflight A) (t : ℕ) (k : Bytes) (c u : ℕ) (p : Place A)
      → Fits s t (leaving k c)
      → u ≢ t
      → Fits s u p
      → Fits (deleted k s) u p
  Fits-deleted s t k c u outside mine n h = tt
  Fits-deleted s t k c u (running k' d) mine n (for, owner, pending, listed) =
      (for, owner, pending, listed-deleted s t k c u k' d mine n owner listed)
  Fits-deleted s t k c u (leaving k' d) mine n (for, owner, done, listed) =
      (for, owner, done, listed-deleted s t k c u k' d mine n owner listed)
  Fits-deleted s t k c u (waiting k' d) mine n h = h
  Fits-deleted s t k c u (returned k' d r) mine n h = h

  -- The goroutine that leaves has no call but its own.
  leaver-Has :
      (s : Inflight A) (t : ℕ) (k : Bytes) (c : ℕ) (k' : Bytes) (d : ℕ)
      → s.places t ≡ leaving k c
      → Has s t k' d
      → k' ≡ k
  leaver-Has s t k c k' d at (inl h) = let e : leaving k c ≡ running k' d = sym at ∙ h in cc
  leaver-Has s t k c k' d at (inr h) = let e : leaving k c ≡ leaving k' d = sym at ∙ h in cc

  pub released-IsCoherent :
      (s : Inflight A) (t : ℕ) (k : Bytes) (c : ℕ) (r : Outcome A)
      → IsCoherent s
      → s.places t ≡ leaving k c
      → (s.heap c).outcome ≡ some r
      → IsCoherent (released t k c r s)
  released-IsCoherent s t k c r coherent at has =
      let mine : Fits s t (leaving k c) = subst (Fits s t) at (coherent.fits t) in
      record {
        fits = λ u. elim (either_number u t) [
          | inl e ↦ rw (e, set-same t (returned k c r) s.places) (mine.0, has)
          | inr n ↦ rw (set-other t (returned k c r) s.places u n) (
              Fits-places (deleted k s) (set t (returned k c r) s.places) u (s.places u)
                (Fits-deleted s t k c u (s.places u) mine n (coherent.fits u)))
        ];
        held = λ k' d e. elim (either_key k' k) [
          | inl same ↦
              let gone : none ≡ some d = sym (set_key-same k none s.calls) ∙ (rw same at e) in
              absurd (none-some d gone)
          | inr other ↦
              let (for, had) =
                coherent.held k' d (sym (set_key-other k none s.calls k' other) ∙ e) in
              let away : (s.heap d).owner ≢ t =
                λ h. other (leaver-Has s t k c k' d at (subst (λ (u : ℕ). Has s u k' d) h had)) in
              (for, Has-set s t (returned k c r) (s.heap d).owner k' d away had)
        ];
        unfinished = λ d l e.
            let runs = coherent.unfinished d l e in
            let away : (s.heap d).owner ≢ t = λ h.
              let both : leaving k c ≡ running (s.heap d).key d = sym at ∙ rw h at runs in cc in
            set-other t (returned k c r) s.places (s.heap d).owner away ∙ runs;
      }
