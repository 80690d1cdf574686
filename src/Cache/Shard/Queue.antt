-- ===== src/Cache/Shard/Queue.antt =====
-- The invariant of the eviction queue of cache/eviction_heap.go: its order, and an item for every
-- entry.
use labyrinth.Prelude.{
  ℕ, ◌+◌, ◌*◌, ◌≤◌, true, false, List, [], ◌∷◌, some, ◌≡◌, ◌⊎◌, inl, inr, ltb, arith, refl, ap, sym,
  ◌∙◌, Bool-cases,
}
use labyrinth.Prelude.Select.{Member}
use labyrinth.Cache.Entry.{Entry, second}
use labyrinth.Cache.Shard.{
  CacheKey, EntryMap, EvictionItem, Shard, same_key, lookup, delete, insert, push_item,
  push_eviction_entry,
}
use labyrinth.Cache.Shard.Keys.{
  same_key_iff, lookup-insert-same, lookup-insert-other, lookup-delete,
}

-- The first item is the first to expire.
abbrev pub IsSorted : List EvictionItem → Type 0
IsSorted [] = Unit {0}
IsSorted (x ∷ q) = ((y : EvictionItem) → Member y q → x.expires_at ≤ y.expires_at) × IsSorted q

pub Member-push_item :
    (item y : EvictionItem) (q : List EvictionItem)
    → Member y (push_item item q)
    → (item ≡ y) ⊎ Member y q
unfolding push_item
Member-push_item item y [] m = m
Member-push_item item y (x ∷ q) m = elim (Bool-cases (ltb item.expires_at x.expires_at)) [
  | inl l ↦ rw l at m
  | inr n ↦ deeper (Member-push_item item y q) (rw n at m)
]
  where
    deeper :
        (Member y (push_item item q) → (item ≡ y) ⊎ Member y q)
        → (x ≡ y) ⊎ Member y (push_item item q)
        → (item ≡ y) ⊎ (x ≡ y) ⊎ Member y q
    deeper f (inl e) = inr (inl e)
    deeper f (inr m) = elim (f m) [ inl e ↦ inl e | inr n ↦ inr (inr n) ]

pub push_item-Member :
    (item y : EvictionItem) (q : List EvictionItem)
    → (item ≡ y) ⊎ Member y q
    → Member y (push_item item q)
unfolding push_item
push_item-Member item y [] h = h
push_item-Member item y (x ∷ q) h = elim (Bool-cases (ltb item.expires_at x.expires_at)) [
  | inl l ↦ rw l h
  | inr n ↦ rw n (deeper (push_item-Member item y q) h)
]
  where
    deeper :
        ((item ≡ y) ⊎ Member y q → Member y (push_item item q))
        → (item ≡ y) ⊎ (x ≡ y) ⊎ Member y q
        → (x ≡ y) ⊎ Member y (push_item item q)
    deeper f (inl e) = inr (f (inl e))
    deeper f (inr (inl e)) = inl e
    deeper f (inr (inr m)) = inr (f (inr m))

pub push_item-IsSorted :
    (item : EvictionItem) (q : List EvictionItem) → IsSorted q → IsSorted (push_item item q)
unfolding push_item
push_item-IsSorted item [] s = ((λ y m. absurd m), tt)
push_item-IsSorted item (x ∷ q) (first, s) = elim (Bool-cases (ltb item.expires_at x.expires_at)) [
  | inl l ↦ rw l (front l, (first, s))
  | inr n ↦ rw n (back n, push_item-IsSorted item q s)
]
  where
    front :
        ltb item.expires_at x.expires_at ≡ true
        → (y : EvictionItem) → (x ≡ y) ⊎ Member y q
        → item.expires_at ≤ y.expires_at
    front l y (inl e) = rw (← e) (ground arith)
    front l y (inr m) = ground (arith, first y m)

    back :
        ltb item.expires_at x.expires_at ≡ false
        → (y : EvictionItem) → Member y (push_item item q)
        → x.expires_at ≤ y.expires_at
    back n y m = elim (Member-push_item item y q m) [
      | inl e ↦ rw (← e) (ground arith)
      | inr k ↦ first y k
    ]

-- When an entry expires.
abbrev pub due : Entry → ℕ
due e = e.inserted_at + e.orig_ttl * second

-- The item is the one of the entry under the key.
pub record IsItemOf (key : CacheKey) (e : Entry) (item : EvictionItem) : Type 0 where
  pub its_key : item.key ≡ key
  pub its_id : item.entry_id ≡ e.id
  pub its_time : item.expires_at ≡ due e

-- Every entry has its item.
abbrev pub HasItems : EntryMap → List EvictionItem → Type 0
HasItems m q =
    (key : CacheKey) (e : Entry)
    → lookup key m ≡ some e
    → (item : EvictionItem) × Member item q × IsItemOf key e item

abbrev pub IsQueued : Shard → Type 0
IsQueued s = IsSorted s.evict_q × HasItems s.entries s.evict_q

pub HasItems-delete :
    (k : CacheKey) (m : EntryMap) (q : List EvictionItem) → HasItems m q → HasItems (delete k m) q
HasItems-delete k m q h key e l = h key e (lookup-delete k key m e l)

-- Putting an entry in with its item.
HasItems-insert :
    (k : CacheKey) (e : Entry) (m : EntryMap) (q : List EvictionItem)
    → HasItems m q
    → HasItems
        (insert k e m)
        (push_item (record { key = k; entry_id = e.id; expires_at = due e }) q)
HasItems-insert k e m q h key x l = elim (Bool-cases (same_key k key)) [
  | inl s ↦
      let a : k ≡ key = (same_key_iff k key).0 s in
      let b : e ≡ x = cc (lookup-insert-same k e m, l, ap (λ t. lookup t (insert k e m)) a) in
      (
        _,
        push_item-Member _ _ q (inl refl),
        record { its_key = a; its_id = ap (λ t. t.id) b; its_time = ap due b },
      )
  | inr n ↦
      let (item, p, w) = h key x (sym (lookup-insert-other k key e m n) ∙ l) in
      (item, push_item-Member _ item q (inr p), w)
]

pub push_eviction_entry-IsQueued :
    (key : CacheKey) (e : Entry) (s : Shard)
    → IsQueued s
    → IsQueued (push_eviction_entry key e (record s { entries = insert key e s.entries }))
unfolding push_eviction_entry
push_eviction_entry-IsQueued key e s (sorted, h) =
    (push_item-IsSorted _ s.evict_q sorted, HasItems-insert key e s.entries s.evict_q h)
