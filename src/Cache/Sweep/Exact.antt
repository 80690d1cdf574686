-- ===== src/Cache/Sweep/Exact.antt =====
-- `sweep` of cache/eviction.go and the entries that it leaves.
use labyrinth.Prelude.{
  ℕ, zero, suc, ◌-◌, ◌≤◌, ◌<◌, false, ◌&&◌, List, [], ◌∷◌, some, ◌≡◌, inl, inr, ltb, ◌==◌, ==_iff,
  length, arith, refl, ap, sym, ◌∙◌, Bool-cases,
}
use labyrinth.Prelude.Select.{Member}
use labyrinth.Cache.Entry.{Entry}
use labyrinth.Cache.Shard.{CacheKey, EntryMap, EvictionItem, Shard, lookup, evict_expired}
use labyrinth.Cache.Shard.Keys.{same_key_refl}
use labyrinth.Cache.Shard.Queue.{IsQueued, HasItems, IsItemOf}
use labyrinth.Cache.Shard.Expire.{
  AllTimely, unexpired, evict_expired-unexpired, evict_expired-IsQueued,
}
use labyrinth.Cache.Store.{Cache, shard_index, put_shard}
use labyrinth.Cache.Store.Queued.{AllQueued}
use labyrinth.Cache.Reads.{find_entry}
use labyrinth.Cache.Sweep.{sweep_shard, sweep_loop, sweep}

-- A queue with an item for every entry is empty only when there are none.
no_entries :
    (m : EntryMap) (q : List EvictionItem)
    → HasItems m q
    → (ltb 0 (length m) && length q == 0) ≡ false
unfolding lookup
no_entries [] q h = refl
no_entries ((k, e) ∷ m) [] h = absurd (nothing (h k e (front k e m)))
  where
    nothing : ¬ ((item : EvictionItem) × Member item [] × IsItemOf k e item)
    nothing (_, p, _) = absurd p

    front : (k : CacheKey) (e : Entry) (m : EntryMap) → lookup k ((k, e) ∷ m) ≡ some e
    front k e m = rw (same_key_refl k)
no_entries ((k, e) ∷ m) (x ∷ q) h = ground arith

-- The fall-back over the map does not run.
sweep_shard-evict_expired :
    (now : ℕ) (s : Shard)
    → IsQueued (evict_expired now s).0
    → (sweep_shard now s).0 ≡ (evict_expired now s).0
unfolding sweep_shard
sweep_shard-evict_expired now s (_, items) =
    ground (arith, no_entries (evict_expired now s).0.entries _ items)

-- The shards that the loop has not come to yet, and those it has dealt with.
sweep_loop-outside :
    (now n : ℕ) (c : Cache) (k i : ℕ) → i < 256 - n → (sweep_loop now n c k).0.shards i ≡ c.shards i
unfolding sweep_loop put_shard
sweep_loop-outside now zero c k i lt = refl
sweep_loop-outside now (suc n) c k i lt =
    let d : (i == 256 - suc n) ≡ false = ground arith in
    sweep_loop-outside now n _ _ i (omega arith) ∙ rw d

sweep_loop-inside :
    (now n : ℕ) (c : Cache) (k i : ℕ)
    → n ≤ 256
    → 256 - n ≤ i
    → i < 256
    → (sweep_loop now n c k).0.shards i ≡ (sweep_shard now (c.shards i)).0
unfolding sweep_loop put_shard
sweep_loop-inside now zero c k i le ge lt = absurd (omega arith)
sweep_loop-inside now (suc n) c k i le ge lt = elim (Bool-cases (i == 256 - suc n)) [
  | inr d ↦ sweep_loop-inside now n _ _ i (omega arith) (ground arith) lt ∙ rw d
  | inl e ↦
      let s : i ≡ 256 - suc n = (==_iff _ _).0 e in
      sweep_loop-outside now n _ _ i (omega (arith, s))
      ∙ rw e (ap (λ j. (sweep_shard now (c.shards j)).0) (sym s))
]

shard_index-lt : (name : List ℕ) → shard_index name < 256
unfolding shard_index
shard_index-lt name = omega arith

-- If every entry has its item in the queue of its shard, and the clock has passed the insertion of
-- every entry by less than 2^32 seconds, the sweep takes away exactly the expired entries: a
-- look-up afterwards finds the entry of before unless it has expired.
pub find_entry-sweep :
    (now : ℕ) (c : Cache) (key : CacheKey)
    → AllQueued c
    → ((i : ℕ) → AllTimely now (c.shards i).entries)
    → find_entry key (sweep now c).0 ≡ unexpired now (find_entry key c)
unfolding find_entry sweep
find_entry-sweep now c key a t =
    let i = shard_index key.name in
    let s = sweep_loop-inside now 256 c 0 i (omega arith) (omega arith) (shard_index-lt key.name) in
    let q = evict_expired-IsQueued now (c.shards i) (a i) (t i) in
    ap (λ x. lookup key x.entries) (s ∙ sweep_shard-evict_expired now (c.shards i) q)
    ∙ evict_expired-unexpired now (c.shards i) key (a i) (t i)
