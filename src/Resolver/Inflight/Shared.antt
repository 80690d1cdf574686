-- ===== src/Resolver/Inflight/Shared.antt =====
-- What callers of `do` of resolver/inflight.go share.
use labyrinth.Prelude.{
  ℕ, ◌≡◌, ◌⊎◌, ◌∙◌, subst, sym, ap, List, [], ◌∷◌, Option, none, some, Bytes, refl, inl, inr,
  Option-cases,
}
use labyrinth.Resolver.Inflight.{
  Outcome, Place, outside, running, leaving, waiting, returned, Inflight, new_inflight, set_key,
  join_or_make, begin, finish, return_with, leave, Move, begins, finishes, leaves, act, run,
}
use labyrinth.Resolver.Inflight.Coherent.{
  Fits, IsCoherent, move-IsCoherent, new_inflight-IsCoherent,
}
use labyrinth.Resolver.Inflight.Make.{made-IsCoherent}
use labyrinth.Resolver.Inflight.End.{ended-IsCoherent}
use labyrinth.Resolver.Inflight.Delete.{released-IsCoherent}

module _ {A : Type 0} where
  joined-IsCoherent :
      (s : Inflight A) (key : Bytes) (t : ℕ) (o : Option ℕ)
      → IsCoherent s
      → s.calls key ≡ o
      → s.places t ≡ outside
      → IsCoherent (join_or_make key t o s)
  joined-IsCoherent s key t none coherent e at = made-IsCoherent s key t coherent e at
  joined-IsCoherent s key t (some c) coherent e at =
      move-IsCoherent s t (waiting key c) coherent (coherent.held key c e).0 (λ k d h. elim h [
        | inl h ↦ let both : outside ≡ running k d = sym at ∙ h in cc
        | inr h ↦ let both : outside ≡ leaving k d = sym at ∙ h in cc
      ])

  begin-IsCoherent :
      (s : Inflight A) (key : Bytes) (t : ℕ) (p : Place A)
      → IsCoherent s
      → s.places t ≡ p
      → IsCoherent (begin key t p s)
  begin-IsCoherent s key t outside coherent at =
      joined-IsCoherent s key t (s.calls key) coherent refl at
  begin-IsCoherent s key t (running k c) coherent at = coherent
  begin-IsCoherent s key t (leaving k c) coherent at = coherent
  begin-IsCoherent s key t (waiting k c) coherent at = coherent
  begin-IsCoherent s key t (returned k c r) coherent at = coherent

  finish-IsCoherent :
      (s : Inflight A) (r : Outcome A) (t : ℕ) (p : Place A)
      → IsCoherent s
      → s.places t ≡ p
      → IsCoherent (finish r t p s)
  finish-IsCoherent s r t (running k c) coherent at = ended-IsCoherent s r t k c coherent at
  finish-IsCoherent s r t outside coherent at = coherent
  finish-IsCoherent s r t (leaving k c) coherent at = coherent
  finish-IsCoherent s r t (waiting k c) coherent at = coherent
  finish-IsCoherent s r t (returned k c r') coherent at = coherent

  deleting-IsCoherent :
      (s : Inflight A) (t : ℕ) (k : Bytes) (c : ℕ) (o : Option (Outcome A))
      → IsCoherent s
      → s.places t ≡ leaving k c
      → (s.heap c).outcome ≡ o
      → IsCoherent (return_with k c t o (record s { calls = set_key k none s.calls }))
  deleting-IsCoherent s t k c none coherent at e =
      let mine : Fits s t (leaving k c) = subst (Fits s t) at (coherent.fits t) in absurd (mine.2 e)
  deleting-IsCoherent s t k c (some r) coherent at e = released-IsCoherent s t k c r coherent at e

  woken-IsCoherent :
      (s : Inflight A) (t : ℕ) (k : Bytes) (c : ℕ) (o : Option (Outcome A))
      → IsCoherent s
      → s.places t ≡ waiting k c
      → (s.heap c).outcome ≡ o
      → IsCoherent (return_with k c t o s)
  woken-IsCoherent s t k c none coherent at e = coherent
  woken-IsCoherent s t k c (some r) coherent at e =
      let mine : Fits s t (waiting k c) = subst (Fits s t) at (coherent.fits t) in
      move-IsCoherent s t (returned k c r) coherent (mine, e)
        (λ k' d h. elim h [
          | inl h ↦ let both : waiting k c ≡ running k' d = sym at ∙ h in cc
          | inr h ↦ let both : waiting k c ≡ leaving k' d = sym at ∙ h in cc
        ])

  leave-IsCoherent :
      (s : Inflight A) (t : ℕ) (p : Place A)
      → IsCoherent s
      → s.places t ≡ p
      → IsCoherent (leave t p s)
  leave-IsCoherent s t (leaving k c) coherent at =
      deleting-IsCoherent s t k c (s.heap c).outcome coherent at refl
  leave-IsCoherent s t (waiting k c) coherent at =
      woken-IsCoherent s t k c (s.heap c).outcome coherent at refl
  leave-IsCoherent s t outside coherent at = coherent
  leave-IsCoherent s t (running k c) coherent at = coherent
  leave-IsCoherent s t (returned k c r) coherent at = coherent

  act-IsCoherent : (s : Inflight A) (m : Move A) (t : ℕ) → IsCoherent s → IsCoherent (act m t s)
  unfolding act
  act-IsCoherent s (begins key) t coherent = begin-IsCoherent s key t (s.places t) coherent refl
  act-IsCoherent s (finishes r) t coherent = finish-IsCoherent s r t (s.places t) coherent refl
  act-IsCoherent s leaves t coherent = leave-IsCoherent s t (s.places t) coherent refl

  run-IsCoherent :
      (moves : List (ℕ × Move A)) (s : Inflight A) → IsCoherent s → IsCoherent (run moves s)
  unfolding run
  run-IsCoherent [] s coherent = coherent
  run-IsCoherent ((t, m) ∷ moves) s coherent =
      run-IsCoherent moves (act m t s) (act-IsCoherent s m t coherent)

  -- What is so of the goroutines at any time.
  pub record IsShared (s : Inflight A) : Type 0 where
    pub one_runner :
        (t u : ℕ) (k : Bytes) (c d : ℕ)
        → s.places t ≡ running k c
        → s.places u ≡ running k d
        → t ≡ u
    pub one_outcome :
        (t u : ℕ) (k k' : Bytes) (c : ℕ) (r r' : Outcome A)
        → s.places t ≡ returned k c r
        → s.places u ≡ returned k' c r'
        → (k ≡ k') × (r ≡ r')
    pub no_lost_waiter :
        (t : ℕ) (k : Bytes) (c : ℕ)
        → s.places t ≡ waiting k c
        → ((r : Outcome A) × ((s.heap c).outcome ≡ some r))
          ⊎ (s.places (s.heap c).owner ≡ running k c)

  -- However the moves of any number of goroutines interleave, at most one of them runs the function
  -- for a key; all that return from one call were called with one key and have one outcome; and who
  -- waits for a call waits for an outcome that is there or for a goroutine that runs the call.
  pub run-IsShared : (moves : List (ℕ × Move A)) → IsShared (run moves (new_inflight A))
  run-IsShared moves =
      let s = run moves (new_inflight A) in
      let coherent = run-IsCoherent moves (new_inflight A) new_inflight-IsCoherent in
      record {
        one_runner = λ t u k c d at at'.
            let (for, mine, _, listed) : Fits s t (running k c) =
              subst (Fits s t) at (coherent.fits t) in
            let (for', mine', _, listed') : Fits s u (running k d) =
              subst (Fits s u) at' (coherent.fits u) in
            let same : c ≡ d = cc in sym mine ∙ ap (λ (x : ℕ). (s.heap x).owner) same ∙ mine';
        one_outcome = λ t u k k' c r r' at at'.
            let (for, has) : Fits s t (returned k c r) = subst (Fits s t) at (coherent.fits t) in
            let (for', has') : Fits s u (returned k' c r') =
              subst (Fits s u) at' (coherent.fits u) in
            let both : some r ≡ some r' = sym has ∙ has' in (sym for.1 ∙ for'.1, cc);
        no_lost_waiter = λ t k c at.
            let (l, named) : Fits s t (waiting k c) = subst (Fits s t) at (coherent.fits t) in
            elim (Option-cases (s.heap c).outcome) [
              | inl e ↦ inr (
                  subst (λ (x : Bytes). s.places (s.heap c).owner ≡ running x c) named
                    (coherent.unfinished c l e))
              | inr h ↦ inl h
            ];
      }
