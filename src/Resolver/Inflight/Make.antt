-- ===== src/Resolver/Inflight/Make.antt =====
-- A goroutine makes the call of a key, in resolver/inflight.go.
use labyrinth.Prelude.{ℕ, ◌<◌, ◌≡◌, ◌∙◌, subst, sym, ap, none, some, Bytes, arith, inl, inr}
use labyrinth.Resolver.Inflight.{
  Call, Place, outside, running, leaving, waiting, returned, Inflight, join_or_make,
}
use labyrinth.Resolver.Inflight.Coherent.{
  set-same, set-other, set_key-same, set_key-other, either_number, either_key, IsFor, Fits, Has,
  IsCoherent, Has-set,
}

module _ {A : Type 0} where
  -- What the first goroutine of a key makes.
  abbrev made : Bytes → ℕ → Inflight A → Inflight A
  made key t s = join_or_make key t none s

  IsFor-made :
      (s : Inflight A) (key : Bytes) (t : ℕ) (k : Bytes) (c : ℕ)
      → IsFor s k c
      → IsFor (made key t s) k c
  IsFor-made s key t k c (l, e) =
      (omega arith, ap (λ (x : Call A). x.key) (set-other s.next _ s.heap c (λ h. omega arith)) ∙ e)

  kept-made :
      (s : Inflight A) (key : Bytes) (t : ℕ) (c : ℕ) → c < s.next → (made key t s).heap c ≡ s.heap c
  kept-made s key t c l = set-other s.next _ s.heap c (λ h. omega arith)

  listed-made :
      (s : Inflight A) (key : Bytes) (t : ℕ) (k : Bytes) (c : ℕ)
      → s.calls key ≡ none
      → s.calls k ≡ some c
      → (made key t s).calls k ≡ some c
  listed-made s key t k c absent e = elim (either_key k key) [
    | inl same ↦ let gone : s.calls k ≡ none = rw same absent in cc
    | inr n ↦ set_key-other key _ s.calls k n ∙ e
  ]

  Fits-made :
      (s : Inflight A) (key : Bytes) (t u : ℕ) (p : Place A)
      → s.calls key ≡ none
      → Fits s u p
      → Fits (made key t s) u p
  Fits-made s key t u outside absent h = tt
  Fits-made s key t u (running k c) absent (for, mine, pending, listed) = (
    IsFor-made s key t k c for,
    rw (kept-made s key t c for.0) mine,
    rw (kept-made s key t c for.0) pending,
    listed-made s key t k c absent listed,
  )
  Fits-made s key t u (leaving k c) absent (for, mine, done, listed) = (
    IsFor-made s key t k c for,
    rw (kept-made s key t c for.0) mine,
    rw (kept-made s key t c for.0) done,
    listed-made s key t k c absent listed,
  )
  Fits-made s key t u (waiting k c) absent for = IsFor-made s key t k c for
  Fits-made s key t u (returned k c r) absent (for, has) =
      (IsFor-made s key t k c for, rw (kept-made s key t c for.0) has)

  own-made : (s : Inflight A) (key : Bytes) (t : ℕ) → Fits (made key t s) t (running key s.next)
  own-made s key t =
      let here = set-same s.next (record { key = key; owner = t; outcome = none }) s.heap in
      (
        (omega arith, ap (λ (x : Call A). x.key) here),
        ap (λ (x : Call A). x.owner) here,
        ap (λ (x : Call A). x.outcome) here,
        set_key-same key (some s.next) s.calls,
      )

  -- The new call is run by the goroutine that made it.
  owner_runs :
      (s : Inflight A) (key : Bytes) (t : ℕ)
      → (made key t s).places ((made key t s).heap s.next).owner ≡ running key s.next
  owner_runs s key t = rw (own-made s key t).1 (set-same t (running key s.next) s.places)

  new_held :
      (s : Inflight A) (key : Bytes) (t c : ℕ)
      → (made key t s).calls key ≡ some c
      → IsFor (made key t s) key c × Has (made key t s) ((made key t s).heap c).owner key c
  new_held s key t c e =
      let listed : some s.next ≡ some c = sym (set_key-same key (some s.next) s.calls) ∙ e in
      let new : c ≡ s.next = cc in rw new ((own-made s key t).0, inl (owner_runs s key t))

  pub made-IsCoherent :
      (s : Inflight A) (key : Bytes) (t : ℕ)
      → IsCoherent s
      → s.calls key ≡ none
      → s.places t ≡ outside
      → IsCoherent (made key t s)
  made-IsCoherent s key t coherent absent out =
      let other = λ (u : ℕ) (k : Bytes) (c : ℕ) (has : Has s u k c) (e : u ≡ t).
        idle s t out k c (subst (λ (x : ℕ). Has s x k c) e has) in
      record {
        fits = λ u. elim (either_number u t) [
          | inl e ↦ rw (e, set-same t (running key s.next) s.places) (own-made s key t)
          | inr n ↦
              rw (set-other t (running key s.next) s.places u n)
                (Fits-made s key t u (s.places u) absent (coherent.fits u))
        ];
        held = λ k c e. elim (either_key k key) [
          | inl same ↦ rw same (new_held s key t c (rw same at e))
          | inr n ↦
              let e' : s.calls k ≡ some c = sym (set_key-other key (some s.next) s.calls k n) ∙ e in
              let (for, has) = coherent.held k c e' in
              (
                IsFor-made s key t k c for,
                rw (kept-made s key t c for.0)
                    (Has-set s t (running key s.next) (s.heap c).owner k c (other _ k c has) has),
              )
        ];
        unfinished = λ c l e. elim (either_number c s.next) [
          | inl new ↦ rw (new, (own-made s key t).0.1) (owner_runs s key t)
          | inr n ↦
              let l' : c < s.next = omega arith in
              let runs = coherent.unfinished c l' (rw (kept-made s key t c l') at e) in
              rw (kept-made s key t c l') (
                set-other t (running key s.next) s.places _ (other _ (s.heap c).key c (inl runs))
                ∙ runs)
        ];
      }
    where
      idle : (s : Inflight A) (t : ℕ) → s.places t ≡ outside → (k : Bytes) (c : ℕ) → ¬ Has s t k c
      idle s t out k c (inl e) = cc
      idle s t out k c (inr e) = cc
