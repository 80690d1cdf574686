-- ===== src/Resolver/LocalZone/Specific.antt =====
-- Which local zone resolver/localzone.go covers for a name.
use labyrinth.Prelude.{
  ◌≤◌, ◌≡◌, ◌≢◌, ◌↔◌, Bool, false, List, [], ◌∷◌, map, Option, none, some, Bytes, refl, inl, inr,
  arith, Bool-cases,
}
use labyrinth.Prelude.Select.{Member}
use labyrinth.Text.Zone.{IsUnder, at_or_below, at_or_below_iff}
use labyrinth.Security.Bailiwick.Kept.{Belongs, Belongs-below}
use labyrinth.Dnssec.Nsec.{count_dots}
use labyrinth.Resolver.LocalZone.{
  LocalZone, normal_zone, goes_before, new_local_zone_table, find_zone,
}

-- None of the zones has to go before the given one.
abbrev pub NoneBefore : LocalZone → List LocalZone → Type 0
NoneBefore a [] = Unit {0}
NoneBefore a (b ∷ bs) = (goes_before b a ≡ false) × NoneBefore a bs

abbrev pub IsSorted : List LocalZone → Type 0
IsSorted [] = Unit {0}
IsSorted (a ∷ bs) = NoneBefore a bs × IsSorted bs

-- What `sort.Slice` promises of these zones: the same ones, in the order of the test.
abbrev pub SortsZones :
    ((LocalZone → LocalZone → Bool) → List LocalZone → List LocalZone) → List LocalZone → Type 0
SortsZones sort_slice zones =
    ((z : LocalZone) → Member z (sort_slice goes_before zones) ↔ Member z zones)
    × IsSorted (sort_slice goes_before zones)

-- The name is at or below no zone of the table, or it is at or below the zone found and none with
-- more dots.
data Covers (zones : List LocalZone) (name : Bytes) : Option LocalZone → Type 0 where
  covers_none : ((z : LocalZone) → Member z zones → ¬ IsUnder name z.name) → Covers zones name none
  covers :
      (z : LocalZone)
      → Member z zones
      → IsUnder name z.name
      → ((y : LocalZone)
          → Member y zones
          → IsUnder name y.name
          → count_dots y.name ≤ count_dots z.name)
      → Covers zones name (some z)

NoneBefore-Member :
    (a b : LocalZone) (zs : List LocalZone)
    → NoneBefore a zs
    → Member b zs
    → count_dots b.name ≤ count_dots a.name
NoneBefore-Member a b [] h m = absurd m
NoneBefore-Member a b (z ∷ zs) h (inl e) = rw (← e) (ground arith)
NoneBefore-Member a b (z ∷ zs) h (inr m) = NoneBefore-Member a b zs h.1 m

Covers-later :
    (a : LocalZone) (zs : List LocalZone) (name : Bytes) (o : Option LocalZone)
    → ¬ IsUnder name a.name
    → Covers zs name o
    → Covers (a ∷ zs) name o
Covers-later a zs name none n (covers_none h) =
    covers_none λ z m u. elim m [ inl e ↦ n (rw e u) | inr l ↦ h z l u ]
Covers-later a zs name (some _) n (covers z m u h) =
    covers z (inr m) u λ y k v. elim k [ inl e ↦ absurd (n (rw e v)) | inr l ↦ h y l v ]

find_zone-Covers :
    (zs : List LocalZone) (name : Bytes) → IsSorted zs → Covers zs name (find_zone zs name)
unfolding find_zone
find_zone-Covers [] name s = covers_none λ z m u. m
find_zone-Covers (a ∷ zs) name s = elim (Bool-cases (at_or_below name a.name)) [
  | inl t ↦ rw t (
      covers a (inl refl) ((at_or_below_iff name a.name).0 t)
        λ y k v. elim k [ inl e ↦ rw e (omega arith) | inr l ↦ NoneBefore-Member a y zs s.0 l ])
  | inr f ↦ rw f (
      Covers-later a zs name (find_zone zs name) (λ u. cc ((at_or_below_iff name a.name).1 u))
        (find_zone-Covers zs name s.1))
]

Covers-among :
    (zs ys : List LocalZone) (name : Bytes) (o : Option LocalZone)
    → ((z : LocalZone) → Member z zs ↔ Member z ys)
    → Covers zs name o
    → Covers ys name o
Covers-among zs ys name none same (covers_none h) = covers_none λ z m u. h z ((same z).1 m) u
Covers-among zs ys name (some _) same (covers z m u h) =
    covers z ((same z).0 m) u λ y k v. h y ((same y).1 k) v

-- No zone of the table holds the name, or the zone found does, and none that does has more dots. The
-- root holds every name.
pub data Finds (zones : List LocalZone) (name : Bytes) : Option LocalZone → Type 0 where
  finds_none : ((z : LocalZone) → Member z zones → ¬ Belongs name z.name) → Finds zones name none
  finds :
      (z : LocalZone)
      → Member z zones
      → Belongs name z.name
      → ((y : LocalZone)
          → Member y zones
          → Belongs name y.name
          → count_dots y.name ≤ count_dots z.name)
      → Finds zones name (some z)

Covers-Finds :
    (zones : List LocalZone) (name : Bytes) (o : Option LocalZone)
    → ((z : LocalZone) → Member z zones → z.name ≢ [])
    → Covers zones name o
    → Finds zones name o
Covers-Finds zones name none named (covers_none h) =
    finds_none λ z m b. h z m (Belongs-below name z.name (named z m) b)
Covers-Finds zones name (some _) named (covers z m u h) =
    finds z m (inr u) λ y k b. h y k (Belongs-below name y.name (named y k) b)

-- `findZone` on a table that `NewLocalZoneTable` makes, without a zone for the root: it finds nothing
-- exactly if no zone holds the name, and otherwise a zone that holds it and than which none that holds
-- it has more dots, all zone names being normalized.
pub find_zone-new_local_zone_table :
    (sort_slice : (LocalZone → LocalZone → Bool) → List LocalZone → List LocalZone)
    (zones : List LocalZone) (name : Bytes)
    → SortsZones sort_slice (map normal_zone zones)
    → ((z : LocalZone) → Member z (map normal_zone zones) → z.name ≢ [])
    → Finds (map normal_zone zones) name (find_zone (new_local_zone_table sort_slice zones) name)
find_zone-new_local_zone_table sort_slice zones name sorts named =
    let (same, sorted) = sorts in
    Covers-Finds (map normal_zone zones) name _ named (
      Covers-among (new_local_zone_table sort_slice zones) (map normal_zone zones) name _ same
        (find_zone-Covers (new_local_zone_table sort_slice zones) name sorted))
