-- ===== src/Cache/Shard/Requeue.antt =====
-- The queue's invariant under the eviction for room.
use labyrinth.Prelude.{
  ℕ, zero, suc, true, false, List, [], ◌∷◌, none, some, ◌≡◌, ◌⊎◌, inl, inr, ltb, ◌==◌, length,
  arith, ap, ◌∙◌, subst, Bool-cases, Option-cases,
}
use labyrinth.Prelude.Select.{Member}
use labyrinth.Cache.Entry.{Entry}
use labyrinth.Cache.Shard.{
  CacheKey, EntryMap, EvictionItem, Shard, lookup, delete, is_current, next_item, next_eviction_key,
  key_or_zero, evict_loop, shard_limit, enforce_max_entries,
}
use labyrinth.Cache.Shard.Keys.{lookup-delete, lookup-delete-same}
use labyrinth.Cache.Shard.Evict.{next_eviction_key-entries}
use labyrinth.Cache.Shard.Queue.{IsSorted, IsItemOf, HasItems, IsQueued}

-- The item of an entry is current.
pub IsItemOf-is_current :
    (m : EntryMap) (item : EvictionItem) (key : CacheKey) (e : Entry)
    → IsItemOf key e item
    → lookup key m ≡ some e
    → is_current item m ≡ true
unfolding is_current
IsItemOf-is_current m item key e i l =
    let a : lookup item.key m ≡ some e = ap (λ k. lookup k m) i.its_key ∙ l in
    ground (arith, a, i.its_id)

-- An item in the queue is of the key that is found, or it stays in the queue.
next_item-keeps :
    (q : List EvictionItem) (m : EntryMap) (item : EvictionItem) (key : CacheKey) (e : Entry)
    → Member item q
    → IsItemOf key e item
    → lookup key m ≡ some e
    → ((next_item q m).0 ≡ some key) ⊎ Member item (next_item q m).1
unfolding next_item
next_item-keeps [] m item key e p i l = absurd p
next_item-keeps (x ∷ q) m item key e p i l = elim (Bool-cases (is_current x m)) [
  | inl c ↦ rw c (taken p)
  | inr n ↦ rw n (later p n (next_item-keeps q m item key e))
]
  where
    taken : Member item (x ∷ q) → (some x.key ≡ some key) ⊎ Member item q
    taken (inl s) = inl (ap some (ap (λ t. t.key) s ∙ i.its_key))
    taken (inr r) = inr r

    later :
        Member item (x ∷ q)
        → is_current x m ≡ false
        → (Member item q
            → IsItemOf key e item
            → lookup key m ≡ some e
            → ((next_item q m).0 ≡ some key) ⊎ Member item (next_item q m).1)
        → ((next_item q m).0 ≡ some key) ⊎ Member item (next_item q m).1
    later (inl s) n f =
        let c = IsItemOf-is_current m item key e i l in
        absurd (cc (c, n, ap (λ t. is_current t m) s))
    later (inr r) n f = f r i l

next_item-IsSorted :
    (q : List EvictionItem) (m : EntryMap) → IsSorted q → IsSorted (next_item q m).1
unfolding next_item
next_item-IsSorted [] m s = tt
next_item-IsSorted (x ∷ q) m (_, s) = elim (Bool-cases (is_current x m)) [
  | inl c ↦ rw c s
  | inr n ↦ rw n (next_item-IsSorted q m s)
]

next_eviction_key-evict_q :
    (now : ℕ) (s : Shard) → (next_eviction_key now s).1.evict_q ≡ (next_item s.evict_q s.entries).1
unfolding next_eviction_key
next_eviction_key-evict_q now s = elim (Option-cases (next_item s.evict_q s.entries).0) [
  | inl n ↦ ground (arith, n)
  | inr (key, e) ↦ ground (arith, e)
]

next_eviction_key-found :
    (now : ℕ) (s : Shard) (key : CacheKey)
    → (next_item s.evict_q s.entries).0 ≡ some key
    → (next_eviction_key now s).0 ≡ some key
unfolding next_eviction_key
next_eviction_key-found now s key e = ground (arith, e)

-- What is left after one round.
abbrev after_round : ℕ → Shard → Shard
after_round now s = record (next_eviction_key now s).1 {
  entries = delete (key_or_zero (next_eviction_key now s).0) (next_eviction_key now s).1.entries;
}

after_round-IsQueued : (now : ℕ) (s : Shard) → IsQueued s → IsQueued (after_round now s)
after_round-IsQueued now s (sorted, h) =
    rw (next_eviction_key-evict_q, next_eviction_key-entries)
      (next_item-IsSorted s.evict_q s.entries sorted, stays)
  where
    gone : CacheKey
    gone = key_or_zero (next_eviction_key now s).0

    stays : HasItems (delete gone s.entries) (next_item s.evict_q s.entries).1
    stays key e l =
        let k = lookup-delete gone key s.entries e l in
        let (item, p, i) = h key e k in
        elim (next_item-keeps s.evict_q s.entries item key e p i k) [
          | inr r ↦ (item, r, i)
          | inl f ↦
              let g : gone ≡ key = ap key_or_zero (next_eviction_key-found now s key f) in
              let n : lookup key (delete gone s.entries) ≡ none =
                subst (λ t. lookup t (delete gone s.entries) ≡ none) g
                  (lookup-delete-same gone s.entries) in
              absurd (cc (l, n))
        ]

evict_loop-IsQueued :
    (fuel now limit : ℕ) (s s' : Shard)
    → IsQueued s
    → evict_loop fuel now limit s ≡ some s'
    → IsQueued s'
unfolding evict_loop
evict_loop-IsQueued zero now limit s s' h e = absurd cc
evict_loop-IsQueued (suc fuel) now limit s s' h e =
    elim (Bool-cases (ltb limit (length s.entries))) [
      | inr n ↦ let d : s ≡ s' = ground arith in subst (λ t. IsQueued t) d h
      | inl over ↦
          evict_loop-IsQueued fuel now limit (after_round now s) s' (after_round-IsQueued now s h)
            (rw over at e)
    ]

pub enforce_max_entries-IsQueued :
    (now max_entries : ℕ) (s s' : Shard)
    → IsQueued s
    → enforce_max_entries now max_entries s ≡ some s'
    → IsQueued s'
unfolding enforce_max_entries
enforce_max_entries-IsQueued now max_entries s s' h e = elim (Bool-cases (max_entries == 0)) [
  | inl off ↦ let d : s ≡ s' = ground arith in subst (λ t. IsQueued t) d h
  | inr on ↦ evict_loop-IsQueued _ now (shard_limit max_entries) s s' h (rw on at e)
]
