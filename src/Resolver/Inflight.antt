-- ===== src/Resolver/Inflight.antt =====
-- resolver/inflight.go: calls for the same question that run at the same time share one run.
pub mod Coherent
pub mod Make
pub mod End
pub mod Delete
pub mod Shared
use labyrinth.Prelude.{ℕ, ◌+◌, Bool, List, [], ◌∷◌, Option, none, some, Bytes, if◌then◌else◌, ◌==◌}
use labyrinth.Text.{equal}

-- What the function that is run ends with: a result and an error, or a panic, which is made an error.
pub data Outcome (A : Type 0) : Type 0 where
  completed : A → Outcome A
  recovered : Outcome A

-- `call`, with the key and the goroutine it was made for. The outcome is there once `wg.Done` was
-- called.
pub record Call (A : Type 0) : Type 0 where
  pub key : Bytes
  pub owner : ℕ
  pub outcome : Option (Outcome A)

-- Where a goroutine stands: before `do`, in the function that it runs, between `wg.Done` and the
-- deletion of the key, in `wg.Wait`, or behind `do`. It has the key and the pointer to its call.
pub data Place (A : Type 0) : Type 0 where
  outside : Place A
  running leaving waiting : Bytes → ℕ → Place A
  returned : Bytes → ℕ → Outcome A → Place A

-- `inflight`, with the calls that were allocated and the places of the goroutines, by number.
pub record Inflight (A : Type 0) : Type 0 where
  pub calls : Bytes → Option ℕ
  pub heap : ℕ → Call A
  pub next : ℕ
  pub places : ℕ → Place A

-- `newInflight`, before any goroutine calls it.
abbrev pub new_inflight : (A : Type 0) → Inflight A
new_inflight A = record {
  calls = λ key. none;
  heap = λ i. record { key = []; owner = 0; outcome = none };
  next = 0;
  places = λ t. outside;
}

-- A write at one number, and at one key.
unfoldable pub set {ℓ} : {A : Type ℓ} → ℕ → A → (ℕ → A) → ℕ → A
set t x f u = if u == t then x else f u

unfoldable pub set_key : Bytes → Option ℕ → (Bytes → Option ℕ) → Bytes → Option ℕ
set_key key c f k = if equal k key then c else f k

module _ {A : Type 0} where
  -- The first lock section: the goroutine finds a call of its key, or makes one.
  abbrev pub join_or_make : Bytes → ℕ → Option ℕ → Inflight A → Inflight A
  join_or_make key t (some c) s = record s { places = set t (waiting key c) s.places }
  join_or_make key t none s = record {
    calls = set_key key (some s.next) s.calls;
    heap = set s.next (record { key = key; owner = t; outcome = none }) s.heap;
    next = s.next + 1;
    places = set t (running key s.next) s.places;
  }

  abbrev pub begin : Bytes → ℕ → Place A → Inflight A → Inflight A
  begin key t outside s = join_or_make key t (s.calls key) s
  begin key t (running k c) s = s
  begin key t (leaving k c) s = s
  begin key t (waiting k c) s = s
  begin key t (returned k c r) s = s

  -- The function ends, and `wg.Done` is called.
  abbrev pub finish : Outcome A → ℕ → Place A → Inflight A → Inflight A
  finish r t (running k c) s = record s {
    heap = set c (record (s.heap c) { outcome = some r }) s.heap;
    places = set t (leaving k c) s.places;
  }
  finish r t outside s = s
  finish r t (leaving k c) s = s
  finish r t (waiting k c) s = s
  finish r t (returned k c r') s = s

  abbrev pub return_with : Bytes → ℕ → ℕ → Option (Outcome A) → Inflight A → Inflight A
  return_with k c t none s = s
  return_with k c t (some r) s = record s { places = set t (returned k c r) s.places }

  -- The second lock section, which deletes the key, or the end of `wg.Wait`, which blocks until the
  -- outcome is there; the goroutine returns what its call has.
  abbrev pub leave : ℕ → Place A → Inflight A → Inflight A
  leave t (leaving k c) s =
      return_with k c t (s.heap c).outcome (record s { calls = set_key k none s.calls })
  leave t (waiting k c) s = return_with k c t (s.heap c).outcome s
  leave t outside s = s
  leave t (running k c) s = s
  leave t (returned k c r) s = s

-- What a goroutine does next. A move that it cannot make from its place changes nothing.
pub data Move (A : Type 0) : Type 0 where
  begins : Bytes → Move A
  finishes : Outcome A → Move A
  leaves : Move A

unfoldable pub act : {A : Type 0} → Move A → ℕ → Inflight A → Inflight A
act (begins key) t s = begin key t (s.places t) s
act (finishes r) t s = finish r t (s.places t) s
act leaves t s = leave t (s.places t) s

-- `do`, called by any number of goroutines, whose moves come in any order.
unfoldable pub run : {A : Type 0} → List (ℕ × Move A) → Inflight A → Inflight A
run [] s = s
run ((t, m) ∷ moves) s = run moves (act m t s)
