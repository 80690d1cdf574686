-- ===== src/Cache/Shard/Expire.antt =====
-- The eviction of expired entries: `evictExpiredLocked` of cache/eviction_heap.go.
use labyrinth.Prelude.{
  ℕ, ◌+◌, ◌*◌, ◌≤◌, ◌<◌, Bool, true, false, ◌&&◌, List, [], ◌∷◌, Option, none, some, ◌≡◌, inl, inr,
  if◌then◌else◌, ltb, ◌==◌, arith, ap, sym, ◌∙◌, subst, Bool-cases, Option-cases,
}
use labyrinth.Prelude.Select.{Member}
use labyrinth.Cache.Entry.{Entry, second, remaining_ttl, expired}
use labyrinth.Cache.Entry.Ttl.{expired_iff}
use labyrinth.Cache.Shard.{
  CacheKey, EntryMap, EvictionItem, Shard, same_key, lookup, delete, evict_expired_loop,
  evict_expired,
}
use labyrinth.Cache.Shard.Keys.{
  same_key_iff, lookup-delete, lookup-delete-same, lookup-delete-other,
}
use labyrinth.Cache.Shard.Queue.{IsSorted, IsItemOf, IsQueued, due}

-- The map after one item that is due.
abbrev is_due : ℕ → EvictionItem → EntryMap → Bool
is_due now item m = elim (lookup item.key m) [
  | none ↦ false
  | some e ↦ e.id == item.entry_id && remaining_ttl e now == 0
]

abbrev step_map : ℕ → EvictionItem → EntryMap → EntryMap
step_map now item m = if is_due now item m then delete item.key m else m

-- A step keeps what has some of its TTL left, and adds nothing.
step_map-keeps :
    (now : ℕ) (item : EvictionItem) (m : EntryMap) (key : CacheKey) (e : Entry)
    → lookup key m ≡ some e
    → (remaining_ttl e now == 0) ≡ false
    → lookup key (step_map now item m) ≡ some e
step_map-keeps now item m key e l r = elim (Bool-cases (is_due now item m)) [
  | inr n ↦ rw n l
  | inl d ↦ elim (Bool-cases (same_key item.key key)) [
    | inr o ↦ rw d (lookup-delete-other item.key key m o ∙ l)
    | inl s ↦
        let k : lookup item.key m ≡ some e =
          ap (λ t. lookup t m) ((same_key_iff item.key key).0 s) ∙ l in
        absurd (ground (arith, k, r))
  ]
]

step_map-from :
    (now : ℕ) (item : EvictionItem) (m : EntryMap) (key : CacheKey) (e : Entry)
    → lookup key (step_map now item m) ≡ some e
    → lookup key m ≡ some e
step_map-from now item m key e l = elim (Bool-cases (is_due now item m)) [
  | inr n ↦ rw n at l
  | inl d ↦ lookup-delete item.key key m e (rw d at l)
]

loop-keeps :
    (now : ℕ) (q : List EvictionItem) (m : EntryMap) (n : ℕ) (key : CacheKey) (e : Entry)
    → lookup key m ≡ some e
    → (remaining_ttl e now == 0) ≡ false
    → lookup key (evict_expired_loop now q m n).0.entries ≡ some e
unfolding evict_expired_loop
loop-keeps now [] m n key e l r = l
loop-keeps now (item ∷ q) m n key e l r = elim (Bool-cases (ltb now item.expires_at)) [
  | inl b ↦ rw b l
  | inr c ↦ rw c (
      loop-keeps now q (step_map now item m) (if is_due now item m then n + 1 else n) key e
        (step_map-keeps now item m key e l r) r)
]

loop-from :
    (now : ℕ) (q : List EvictionItem) (m : EntryMap) (n : ℕ) (key : CacheKey) (e : Entry)
    → lookup key (evict_expired_loop now q m n).0.entries ≡ some e
    → lookup key m ≡ some e
unfolding evict_expired_loop
loop-from now [] m n key e l = l
loop-from now (item ∷ q) m n key e l = elim (Bool-cases (ltb now item.expires_at)) [
  | inl b ↦ rw b at l
  | inr c ↦ step_map-from now item m key e (
      loop-from now q (step_map now item m) (if is_due now item m then n + 1 else n) key e
        (rw c at l))
]

-- A key that is not in the map is not in it afterwards.
loop-absent :
    (now : ℕ) (q : List EvictionItem) (m : EntryMap) (n : ℕ) (key : CacheKey)
    → lookup key m ≡ none
    → lookup key (evict_expired_loop now q m n).0.entries ≡ none
loop-absent now q m n key l =
    elim (Option-cases (lookup key (evict_expired_loop now q m n).0.entries)) [
      | inl a ↦ a
      | inr (e, s) ↦ absurd (cc (l, loop-from now q m n key e s))
    ]

-- The item of an expired entry takes it away.
step_map-takes :
    (now : ℕ) (item : EvictionItem) (m : EntryMap) (key : CacheKey) (e : Entry)
    → IsItemOf key e item
    → lookup key m ≡ some e
    → (remaining_ttl e now == 0) ≡ true
    → lookup key (step_map now item m) ≡ none
step_map-takes now item m key e i l r =
    let k : lookup item.key m ≡ some e = ap (λ t. lookup t m) i.its_key ∙ l in
    let d : is_due now item m ≡ true = ground (arith, k, r, i.its_id) in
    rw d
      (subst (λ t. lookup t (delete item.key m) ≡ none) i.its_key (lookup-delete-same item.key m))

loop-takes :
    (now : ℕ) (q : List EvictionItem) (m : EntryMap) (n : ℕ) (key : CacheKey) (e : Entry)
    (item : EvictionItem)
    → IsSorted q
    → Member item q
    → IsItemOf key e item
    → item.expires_at ≤ now
    → (remaining_ttl e now == 0) ≡ true
    → lookup key m ≡ some e
    → lookup key (evict_expired_loop now q m n).0.entries ≡ none
unfolding evict_expired_loop
loop-takes now [] m n key e item s p i t r l = absurd p
loop-takes now (x ∷ q) m n key e item (first, s) (inl same) i t r l =
    let b : ltb now x.expires_at ≡ false = ground (arith, ap (λ y. y.expires_at) same) in
    let j : IsItemOf key e x = subst (λ y. IsItemOf key e y) (sym same) i in
    rw b (
      loop-absent now q (step_map now x m) (if is_due now x m then n + 1 else n) key
        (step_map-takes now x m key e j l r))
loop-takes now (x ∷ q) m n key e item (first, s) (inr p) i t r l =
    let b : ltb now x.expires_at ≡ false = ground (arith, first item p) in
    rw b (elim (Option-cases (lookup key (step_map now x m))) [
      | inl a ↦ loop-absent now q (step_map now x m) (if is_due now x m then n + 1 else n) key a
      | inr (e', k) ↦
          let d : e ≡ e' = cc (step_map-from now x m key e' k, l) in
          loop-takes now q (step_map now x m) (if is_due now x m then n + 1 else n) key e item s p i
            t r (k ∙ ap some (sym d))
    ])

loop-queue :
    (now : ℕ) (q : List EvictionItem) (m : EntryMap) (n : ℕ) (item : EvictionItem)
    → Member item q
    → now < item.expires_at
    → Member item (evict_expired_loop now q m n).0.evict_q
unfolding evict_expired_loop
loop-queue now [] m n item p t = absurd p
loop-queue now (x ∷ q) m n item p t = elim (Bool-cases (ltb now x.expires_at)) [
  | inl b ↦ rw b p
  | inr c ↦
      rw c
        (later p c (loop-queue now q (step_map now x m) (if is_due now x m then n + 1 else n) item))
]
  where
    later :
        {goal : Type 0}
        → Member item (x ∷ q)
        → ltb now x.expires_at ≡ false
        → (Member item q → now < item.expires_at → goal)
        → goal
    later (inl e) c f = absurd (ground (arith, c, t, ap (λ y. y.expires_at) e))
    later (inr r) c f = f r t

loop-IsSorted :
    (now : ℕ) (q : List EvictionItem) (m : EntryMap) (n : ℕ)
    → IsSorted q
    → IsSorted (evict_expired_loop now q m n).0.evict_q
unfolding evict_expired_loop
loop-IsSorted now [] m n s = tt
loop-IsSorted now (x ∷ q) m n (first, s) = elim (Bool-cases (ltb now x.expires_at)) [
  | inl b ↦ rw b (first, s)
  | inr c ↦ rw c (loop-IsSorted now q (step_map now x m) (if is_due now x m then n + 1 else n) s)
]

-- The clock has passed the insertion of every entry, by less than 2^32 seconds.
pub record IsTimely (now : ℕ) (e : Entry) : Type 0 where
  pub after : e.inserted_at ≤ now
  pub before : now < e.inserted_at + 4294967296 * second
  pub width : e.orig_ttl < 4294967296

abbrev pub AllTimely : ℕ → EntryMap → Type 0
AllTimely now m = (key : CacheKey) (e : Entry) → lookup key m ≡ some e → IsTimely now e

-- What is left of an entry.
abbrev pub unexpired : ℕ → Option Entry → Option Entry
unexpired now none = none
unexpired now (some e) = if expired e now then none else some e

pub evict_expired-unexpired :
    (now : ℕ) (s : Shard) (key : CacheKey)
    → IsQueued s
    → AllTimely now s.entries
    → lookup key (evict_expired now s).0.entries ≡ unexpired now (lookup key s.entries)
unfolding evict_expired expired
evict_expired-unexpired now s key (sorted, items) timely =
    elim (Option-cases (lookup key s.entries)) [
      | inl n ↦ loop-absent now s.evict_q s.entries 0 key n ∙ rw n
      | inr (e, l) ↦ elim (Bool-cases (remaining_ttl e now == 0)) [
        | inr r ↦ loop-keeps now s.evict_q s.entries 0 key e l r ∙ rw (l, r)
        | inl r ↦
            let (item, p, i) = items key e l in
            let t = timely key e l in
            let d : due e ≤ now = (expired_iff e now t.after t.before t.width).0 r in
            loop-takes now s.evict_q s.entries 0 key e item sorted p i (omega (arith, i.its_time)) r
              l
            ∙ rw (l, r)
      ]
    ]

pub evict_expired-IsQueued :
    (now : ℕ) (s : Shard) → IsQueued s → AllTimely now s.entries → IsQueued (evict_expired now s).0
unfolding evict_expired expired
evict_expired-IsQueued now s (sorted, items) timely = (
  loop-IsSorted now s.evict_q s.entries 0 sorted,
  λ key e l.
      let k = loop-from now s.evict_q s.entries 0 key e l in
      let (item, p, i) = items key e k in
      let t = timely key e k in
      elim (Bool-cases (remaining_ttl e now == 0)) [
        | inr r ↦ (
          item,
          loop-queue now s.evict_q s.entries 0 item p
              (ground (arith, i.its_time, r, expired_iff e now t.after t.before t.width)),
          i,
        )
        | inl r ↦
            let d : due e ≤ now = (expired_iff e now t.after t.before t.width).0 r in
            absurd (
              cc (
                l,
                loop-takes now s.evict_q s.entries 0 key e item sorted p i
                    (omega (arith, i.its_time)) r k,
              ))
      ],
)
