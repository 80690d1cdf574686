-- ===== src/Cache/Reads/Fresh.antt =====
-- The answers of `Get` of cache/cache.go and the entries that they come from.
use labyrinth.Prelude.{ℕ, ◌<◌, true, List, [], ◌∷◌, ◌++◌, none, some, Bytes, ◌≡◌, ◌≢◌, arith}
use labyrinth.Text.{to_lower, split}
use labyrinth.Cache.Entry.{Entry, remaining_ttl, with_decayed_ttl}
use labyrinth.Cache.Shard.{CacheKey}
use labyrinth.Cache.Store.{Cache, key_for}
use labyrinth.Cache.Reads.{find_entry, find_or_sentinel, get_entry, get}

-- The zone is above the name, and not the root.
abbrev pub IsParent : Bytes → Bytes → Type 0
IsParent zone name =
    (zone ≢ []) × (l : Bytes) × (front : List Bytes) × (split name ≡ l ∷ (front ++ split zone))

-- The keys whose entries answer for a name in lower case and a type.
pub data AnswersFor (c : Cache) (name : Bytes) (qtype class : ℕ) : CacheKey → Type 0 where
  for_type : AnswersFor c name qtype class (key_for name qtype class)
  for_name :
      qtype ≢ 0
      → find_entry (key_for name qtype class) c ≡ none
      → AnswersFor c name qtype class (key_for name 0 class)
  for_parent :
      (zone : Bytes)
      → qtype ≢ 0
      → c.harden_below_nx ≡ true
      → find_entry (key_for name qtype class) c ≡ none
      → find_entry (key_for name 0 class) c ≡ none
      → IsParent zone name
      → AnswersFor c name qtype class (key_for zone 0 class)

-- The answer is an entry of the cache under such a key, which has some of its TTL left and is
-- returned with as much in all its records.
pub record IsFresh (now : ℕ) (c : Cache) (name : Bytes) (qtype class : ℕ) (found : Entry)
    : Type 0 where
  pub key : CacheKey
  pub entry : Entry
  pub answers : AnswersFor c name qtype class key
  pub cached : find_entry key c ≡ some entry
  pub unexpired : 0 < remaining_ttl entry now
  pub decayed : found ≡ with_decayed_ttl entry (remaining_ttl entry now)

-- What an answer from above is: a live NXDOMAIN entry of a parent.
FromParent : ℕ → Cache → ℕ → Bytes → Entry → Type 0
FromParent now c class name found =
    (zone : Bytes) × (e : Entry) × IsParent zone name
    × (find_entry (key_for zone 0 class) c ≡ some e)
    × (0 < remaining_ttl e now)
    × (found ≡ with_decayed_ttl e (remaining_ttl e now))

module _ (now : ℕ) (c : Cache) where
  -- `Get` from the answers of its two look-ups.
  pub get-by_type :
      (name : Bytes) (qtype class : ℕ) (e : Entry)
      → find_entry (key_for (to_lower name) qtype class) c ≡ some e
      → get now c name qtype class ≡ get_entry now c (key_for (to_lower name) qtype class) e
  unfolding get find_or_sentinel
  get-by_type name qtype class e h = ground (arith, h)

  pub get-by_name :
      (name : Bytes) (qtype class : ℕ) (e : Entry)
      → qtype ≢ 0
      → find_entry (key_for (to_lower name) qtype class) c ≡ none
      → find_entry (key_for (to_lower name) 0 class) c ≡ some e
      → get now c name qtype class ≡ get_entry now c (key_for (to_lower name) 0 class) e
  unfolding get find_or_sentinel
  get-by_name name qtype class e q n h = ground (arith, n, h)
