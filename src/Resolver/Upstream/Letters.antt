-- ===== src/Resolver/Upstream/Letters.antt =====
-- `randomizeCase` of resolver/upstream.go changes nothing but the case of letters.
use Prim.Native.Nat.{bit_xor}
use labyrinth.Prelude.{
  ℕ, ◌+◌, ◌-◌, ◌/◌, ◌%◌, ◌≡◌, Bool, true, ◌&&◌, ◌||◌, not, [], ◌∷◌, Bytes, refl, ap, if◌then◌else◌,
  ◌==◌, ==_iff, inl, inr, arith, Bool-cases,
}
use labyrinth.Prelude.Bits.{passes_from, passes, passes-at}
use labyrinth.Text.{equal, to_lower, lower_byte}
use labyrinth.Resolver.Upstream.{is_letter, randomize_loop, randomize_case}

flip_test : ℕ → Bool
flip_test c = not (is_letter c) || lower_byte (bit_xor c 0x20) == lower_byte c

flip_table : passes 256 flip_test ≡ true
unfolding passes_from flip_test
flip_table = refl

flip_lower : (c : ℕ) → is_letter c ≡ true → lower_byte (bit_xor c 0x20) ≡ lower_byte c
unfolding flip_test
flip_lower c h =
    let t : flip_test c ≡ true = passes-at 256 flip_test c flip_table (ground arith) in
    (==_iff _ _).0 (ground arith)

randomize_loop-to_lower :
    (random : ℕ → ℕ) (drawn byte bits : ℕ) (cs : Bytes)
    → to_lower (randomize_loop random drawn byte bits cs) ≡ to_lower cs
unfolding randomize_loop to_lower
randomize_loop-to_lower random drawn byte bits [] = refl
randomize_loop-to_lower random drawn byte bits (c ∷ cs) =
    let fresh : Bool = is_letter c && bits == 0 in
    let b : ℕ = if fresh then random drawn else byte in
    let left : ℕ = if fresh then 8 else bits in
    rw
      (randomize_loop-to_lower random (if fresh then drawn + 1 else drawn)
        (if is_letter c then b / 2 else b) (if is_letter c then left - 1 else left) cs)
      (ap (λ x. x ∷ to_lower cs) (head_lower c (not (b % 2 == 0))))
  where
    head_lower :
        (c : ℕ) (odd : Bool)
        → lower_byte (if is_letter c && odd then bit_xor c 0x20 else c) ≡ lower_byte c
    head_lower c odd = elim (Bool-cases (is_letter c)) [
      | inl l ↦ ground (arith, flip_lower c l)
      | inr n ↦ ground arith
    ]

-- Whatever the random bytes are, `randomizeCase` keeps the name up to the case of its letters.
pub randomize_case-to_lower :
    (random : ℕ → ℕ) (name : Bytes) → to_lower (randomize_case random name) ≡ to_lower name
unfolding randomize_case
randomize_case-to_lower random name = elim (Bool-cases (equal name [] || equal name (b'.' ∷ []))) [
  | inl r ↦ rw r refl
  | inr n ↦ rw n (randomize_loop-to_lower random 0 0 0 name)
]
