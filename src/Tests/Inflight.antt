-- ===== src/Tests/Inflight.antt =====
-- Two goroutines that ask the same question, in resolver/inflight.go.
use labyrinth.Prelude.{◌≡◌, refl, ℕ, List, [], ◌∷◌, Bytes}
use labyrinth.Text.{equal, text}
use labyrinth.Resolver.Inflight.{
  completed, returned, new_inflight, set, set_key, Move, begins, finishes, leaves, act, run,
}
use labyrinth.Resolver.Inflight.Shared.{IsShared, run-IsShared}

-- The second comes while the first runs, and wakes before the first deletes the key.
abbrev two_callers : List (ℕ × Move Bytes)
two_callers =
    (1, begins (text "a|1|1"))
    ∷ (2, begins (text "a|1|1"))
    ∷ (2, leaves)
    ∷ (1, finishes (completed (text "answer")))
    ∷ (2, leaves)
    ∷ (1, leaves)
    ∷ []

both_have_it :
    let s = run two_callers (new_inflight Bytes) in
    (s.places 1 ≡ returned (text "a|1|1") 0 (completed (text "answer")))
    × (s.places 2 ≡ returned (text "a|1|1") 0 (completed (text "answer")))
unfolding run act set set_key equal
both_have_it = (refl, refl)

run-IsShared_example : IsShared (run two_callers (new_inflight Bytes))
run-IsShared_example = run-IsShared two_callers
