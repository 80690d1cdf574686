-- ===== src/Prelude/Bits.antt =====
-- Facts about the bits of a byte and of a 16-bit word, each checked at every value by evaluation.
use Prim.Native.Nat.{bit_and, bit_or}
use labyrinth.Prelude.{
  ℕ, zero, suc, ◌+◌, ◌*◌, ◌%◌, ◌<◌, ◌≤◌, ◌≡◌, refl, ap, inl, inr, Bool-cases, Bool, true, ◌&&◌,
  arith, leb, ◌==◌, ==_iff,
}

-- Whether a test passes at every number under a bound, the smallest first.
unfoldable pub passes_from : (ℕ → Bool) → ℕ → ℕ → Bool
passes_from test zero at = true
passes_from test (suc rounds) at = test at && passes_from test rounds (at + 1)

passes_from-at :
    (test : ℕ → Bool) (rounds at v : ℕ)
    → at ≤ v
    → v < at + rounds
    → passes_from test rounds at ≡ true
    → test v ≡ true
unfolding passes_from
passes_from-at test zero at v lo hi h = absurd (omega arith)
passes_from-at test (suc rounds) at v lo hi h = elim (Bool-cases (v == at)) [
  | inl here ↦ ground (arith, ap test ((==_iff v at).0 here))
  | inr later ↦ passes_from-at test rounds (at + 1) v (ground arith) (omega arith) (ground arith)
]

abbrev pub passes : ℕ → (ℕ → Bool) → Bool
passes bound test = passes_from test bound 0

pub passes-at :
    (bound : ℕ) (test : ℕ → Bool) (v : ℕ) → passes bound test ≡ true → v < bound → test v ≡ true
passes-at bound test v h lt = passes_from-at test bound 0 v (omega arith) (omega arith) h

unfoldable pub bool_eq : Bool → Bool → Bool
bool_eq true b = b
bool_eq _ true = Bool.false
bool_eq _ _ = true

pub bool_eq_sound : (a b : Bool) → bool_eq a b ≡ true → a ≡ b
unfolding bool_eq
bool_eq_sound a b h = ground arith

mask_table : passes 256 (λ v. bool_eq (bit_and v 0xC0 == 0xC0) (leb 192 v)) ≡ true
unfolding passes_from bool_eq
mask_table = refl

-- The two top bits of a byte are set exactly from 192 on.
pub pointer_mask : (v : ℕ) → v < 256 → (bit_and v 0xC0 == 0xC0) ≡ leb 192 v
pointer_mask v h = bool_eq_sound _ _ (passes-at 256 _ v mask_table h)

word_table : passes 65536 (λ v. bit_and v 0x3FFF == v % 16384) ≡ true
unfolding passes_from
word_table = refl

-- The low 14 bits of a 16-bit word.
pub bit_and_14 : (v : ℕ) → v < 65536 → bit_and v 0x3FFF ≡ v % 16384
bit_and_14 v h = (==_iff _ _).0 (passes-at 65536 _ v word_table h)

pointer_table : passes 16384 (λ v. bit_or 0xC000 v == 0xC000 + v) ≡ true
unfolding passes_from
pointer_table = refl

-- The two top bits of a word beside its low 14 bits.
pub bit_or_pointer : (v : ℕ) → v < 16384 → bit_or 0xC000 v ≡ 0xC000 + v
bit_or_pointer v h = (==_iff _ _).0 (passes-at 16384 _ v pointer_table h)

bytes_table : passes 256 (λ a. passes 256 (λ b. bit_or (a * 256) b == a * 256 + b)) ≡ true
unfolding passes_from
bytes_table = refl

-- Two bytes joined to a word.
pub bit_or_bytes : (a b : ℕ) → a < 256 → b < 256 → bit_or (a * 256) b ≡ a * 256 + b
bit_or_bytes a b h k = (==_iff _ _).0 (
    passes-at 256 _ b
      (passes-at 256 (λ a. passes 256 (λ b. bit_or (a * 256) b == a * 256 + b)) a bytes_table h) k)
