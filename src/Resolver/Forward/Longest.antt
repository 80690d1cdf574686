-- ===== src/Resolver/Forward/Longest.antt =====
-- Which forward or stub zone resolver/forward.go takes for a name.
use labyrinth.Prelude.{
  ◌≤◌, ◌<◌, ◌≡◌, ◌≢◌, ◌⊎◌, ◌↔◌, true, false, ◌&&◌, List, [], ◌∷◌, Option, none, some, Bytes, refl,
  if◌then◌else◌, length, inl, inr, arith, Bool-cases,
}
use labyrinth.Prelude.Select.{Member}
use labyrinth.Text.{equal, to_lower, has_suffix, trim_suffix}
use labyrinth.Text.Labels.{equal_iff}
use labyrinth.Text.Zone.{IsUnder, at_or_below, at_or_below_iff}
use labyrinth.Security.Bailiwick.Kept.{Belongs, Belongs-below}
use labyrinth.Resolver.Forward.{
  ForwardZone, forward_covers, is_longer, match_forward_from, match_forward,
}

-- Of two texts, the longer cannot be the suffix of the shorter.
has_suffix-lt : (s zone : Bytes) → has_suffix s (b'.' ∷ zone) ≡ true → length zone < length s
unfolding has_suffix
has_suffix-lt s zone h = ground arith

swap_equal : (a b : Bytes) → equal a b ≡ equal b a
swap_equal a b = elim (Bool-cases (equal a b)) [
  | inl e ↦ rw ((equal_iff a b).0 e) refl
  | inr n ↦ elim (Bool-cases (equal b a)) [
    | inl f ↦ rw ((equal_iff b a).0 f) refl
    | inr m ↦ rw (n, m) refl
  ]
]

forward_covers-at_or_below :
    (qname zone : Bytes) → forward_covers qname zone ≡ at_or_below qname zone
forward_covers-at_or_below qname zone = elim (Bool-cases (has_suffix qname (b'.' ∷ zone))) [
  | inl s ↦ ground (arith, s, swap_equal zone qname, has_suffix-lt qname zone s)
  | inr n ↦ ground (arith, n, swap_equal zone qname)
]

-- The test of a zone is that of the labels.
forward_covers_iff : (qname zone : Bytes) → (forward_covers qname zone ≡ true) ↔ IsUnder qname zone
forward_covers_iff qname zone =
    rw (forward_covers-at_or_below qname zone) (at_or_below_iff qname zone)

-- The name is at or below no zone, or it is at or below the zone found and none with a longer name.
data Covers (In : ForwardZone → Type 0) (qname : Bytes) : Option ForwardZone → Type 0 where
  covers_none : ((z : ForwardZone) → In z → ¬ IsUnder qname z.name) → Covers In qname none
  covers :
      (z : ForwardZone)
      → In z
      → IsUnder qname z.name
      → ((y : ForwardZone) → In y → IsUnder qname y.name → length y.name ≤ length z.name)
      → Covers In qname (some z)

same_zones :
    (In Other : ForwardZone → Type 0) (qname : Bytes) (o : Option ForwardZone)
    → ((z : ForwardZone) → In z ↔ Other z)
    → Covers In qname o
    → Covers Other qname o
same_zones In Other qname none same (covers_none h) = covers_none λ z m. h z ((same z).1 m)
same_zones In Other qname (some _) same (covers z m u h) =
    covers z ((same z).0 m) u λ y k. h y ((same y).1 k)

-- One more zone is seen, which does not become the best.
one_more :
    (In : ForwardZone → Type 0) (qname : Bytes) (z : ForwardZone) (best : Option ForwardZone)
    → (IsUnder qname z.name → is_longer z best ≡ false)
    → Covers In qname best
    → Covers (λ y. In y ⊎ (z ≡ y)) qname best
one_more In qname z none worse (covers_none h) =
    covers_none λ y m u. elim m [ inl l ↦ h y l u | inr e ↦ cc (worse (rw e u)) ]
one_more In qname z (some _) worse (covers best m u h) =
    covers best (inl m) u
      λ y k v. elim k [ inl l ↦ h y l v | inr e ↦ rw (← e) (ground (arith, worse (rw e v))) ]

new_best :
    (In : ForwardZone → Type 0) (qname : Bytes) (z : ForwardZone) (best : Option ForwardZone)
    → IsUnder qname z.name
    → is_longer z best ≡ true
    → Covers In qname best
    → Covers (λ y. In y ⊎ (z ≡ y)) qname (some z)
new_best In qname z none u better (covers_none h) =
    covers z (inr refl) u λ y k v. elim k [ inl l ↦ absurd (h y l v) | inr e ↦ rw e (omega arith) ]
new_best In qname z (some _) u better (covers best m t h) =
    covers z (inr refl) u
      λ y k v. elim k [ inl l ↦ ground (arith, h y l v) | inr e ↦ rw e (omega arith) ]

seen_next :
    (In : ForwardZone → Type 0) (qname : Bytes) (z : ForwardZone) (best : Option ForwardZone)
    → Covers In qname best
    → Covers
        (λ y. In y ⊎ (z ≡ y))
        qname
        (if forward_covers qname z.name && is_longer z best then some z else best)
seen_next In qname z best h = elim (Bool-cases (forward_covers qname z.name)) [
  | inr n ↦ rw n (one_more In qname z best (λ u. cc ((forward_covers_iff qname z.name).1 u)) h)
  | inl c ↦ elim (Bool-cases (is_longer z best)) [
    | inl b ↦ rw (c, b) (new_best In qname z best ((forward_covers_iff qname z.name).0 c) b h)
    | inr w ↦ rw (c, w) (one_more In qname z best (λ u. w) h)
  ]
]

match_forward_from-Covers :
    (zs : List ForwardZone) (qname : Bytes) (best : Option ForwardZone) (In : ForwardZone → Type 0)
    → Covers In qname best
    → Covers (λ y. In y ⊎ Member y zs) qname (match_forward_from zs qname best)
unfolding match_forward_from
match_forward_from-Covers [] qname best In h =
    same_zones In (λ y. In y ⊎ ⊥) qname best
      (λ z. (λ m. inl m, λ m. elim m [ inl l ↦ l | inr e ↦ absurd e ])) h
match_forward_from-Covers (z ∷ zs) qname best In h =
    let next : Option ForwardZone =
      if forward_covers qname z.name && is_longer z best then some z else best in
    same_zones (λ y. (In y ⊎ (z ≡ y)) ⊎ Member y zs) (λ y. In y ⊎ Member y (z ∷ zs)) qname
      (match_forward_from zs qname next) (λ y. (to y, from y))
      (match_forward_from-Covers zs qname next (λ y. In y ⊎ (z ≡ y)) (seen_next In qname z best h))
  where
    to : (y : ForwardZone) → (In y ⊎ (z ≡ y)) ⊎ Member y zs → In y ⊎ Member y (z ∷ zs)
    to y (inl (inl m)) = inl m
    to y (inl (inr e)) = inr (inl e)
    to y (inr m) = inr (inr m)

    from : (y : ForwardZone) → In y ⊎ Member y (z ∷ zs) → (In y ⊎ (z ≡ y)) ⊎ Member y zs
    from y (inl m) = inl (inl m)
    from y (inr (inl e)) = inl (inr e)
    from y (inr (inr m)) = inr m

-- No zone holds the name, or the zone found does and none that does has a longer name. The root
-- holds every name.
pub data Matches (zones : List ForwardZone) (qname : Bytes) : Option ForwardZone → Type 0 where
  matches_none :
      ((z : ForwardZone) → Member z zones → ¬ Belongs qname z.name) → Matches zones qname none
  matches :
      (z : ForwardZone)
      → Member z zones
      → Belongs qname z.name
      → ((y : ForwardZone) → Member y zones → Belongs qname y.name → length y.name ≤ length z.name)
      → Matches zones qname (some z)

Covers-Matches :
    (zones : List ForwardZone) (qname : Bytes) (o : Option ForwardZone)
    → ((z : ForwardZone) → Member z zones → z.name ≢ [])
    → Covers (λ z. Member z zones) qname o
    → Matches zones qname o
Covers-Matches zones qname none named (covers_none h) =
    matches_none λ z m b. h z m (Belongs-below qname z.name (named z m) b)
Covers-Matches zones qname (some _) named (covers z m u h) =
    matches z m (inr u) λ y k b. h y k (Belongs-below qname y.name (named y k) b)

-- In a table without a zone for the root, `Match` finds nothing exactly if no zone holds the
-- normalized name, and otherwise one that holds it, label by label, and than which none that holds it
-- has a longer name.
pub match_forward-Matches :
    (zones : List ForwardZone) (qname : Bytes)
    → ((z : ForwardZone) → Member z zones → z.name ≢ [])
    → Matches zones (to_lower (trim_suffix qname (b'.' ∷ []))) (match_forward zones qname)
unfolding match_forward
match_forward-Matches zones qname named =
    let q = to_lower (trim_suffix qname (b'.' ∷ [])) in
    Covers-Matches zones q (match_forward_from zones q none) named (
      same_zones (λ y. ⊥ ⊎ Member y zones) (λ y. Member y zones) q (match_forward_from zones q none)
        (λ z. (λ m. elim m [ inl e ↦ absurd e | inr l ↦ l ], λ m. inr m))
        (match_forward_from-Covers zones q none (λ y. ⊥) (covers_none λ z m u. m)))
