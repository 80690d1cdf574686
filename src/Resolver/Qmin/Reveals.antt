-- ===== src/Resolver/Qmin/Reveals.antt =====
-- `minimizeQName` of resolver/qmin.go against the labels of names.
use labyrinth.Prelude.{ℕ, false, List, [], ◌∷◌, ◌++◌, Bytes, ◌≡◌, ◌≢◌}
use labyrinth.Text.{split, has_suffix}
use labyrinth.Dns.Message.{type_ns, type_ds}

-- The labels of the zone; the root has none.
abbrev pub zone_labels : Bytes → List Bytes
zone_labels [] = []
zone_labels (c ∷ cs) = split (c ∷ cs)

-- Which name and type are asked for, and why; the cases exclude one another.
pub data Asks (full : Bytes) (qtype : ℕ) (zone : Bytes) : Bytes × ℕ → Type 0 where
  for_root : full ≡ [] → Asks full qtype zone (full, qtype)
  for_ds : full ≢ [] → qtype ≡ type_ds → Asks full qtype zone (full, qtype)
  outside :
      full ≢ []
      → qtype ≢ type_ds
      → zone ≢ []
      → has_suffix full (b'.' ∷ zone) ≡ false
      → Asks full qtype zone (full, qtype)
  last_step :
      (l : Bytes)
      → full ≢ []
      → qtype ≢ type_ds
      → zone ≢ []
      → split full ≡ l ∷ split zone
      → Asks full qtype zone (full, qtype)
  reveals :
      (hidden : List Bytes) (l name : Bytes)
      → full ≢ []
      → qtype ≢ type_ds
      → (zone ≢ [] → hidden ≢ [])
      → split full ≡ hidden ++ (l ∷ zone_labels zone)
      → split name ≡ l ∷ zone_labels zone
      → Asks full qtype zone (name, type_ns)
