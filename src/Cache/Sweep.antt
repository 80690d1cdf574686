-- ===== src/Cache/Sweep.antt =====
-- cache/eviction.go. A loop over the shards goes through the indices from 0 to 255.
pub mod Exact
use labyrinth.Prelude.{
  ℕ, zero, suc, ◌+◌, ◌-◌, Bool, true, false, not, ◌&&◌, [], ◌∷◌, if◌then◌else◌, ltb, ◌==◌, length,
}
use labyrinth.Cache.Shard.{EntryMap, Shard, empty_shard, evict_expired, evict_expired_fallback}
use labyrinth.Cache.Store.{Cache, put_shard}

abbrev pub shard_count : ℕ
shard_count = 256

-- One shard of `sweep`: what is left, and how many entries were evicted.
unfoldable pub sweep_shard : ℕ → Shard → Shard × ℕ
sweep_shard now s =
    let (s', n) = evict_expired now s in
    let (m, k) = evict_expired_fallback now s'.entries in
    if ltb 0 (length s'.entries) && length s'.evict_q == 0
    then (record s' { entries = m }, n + k)
    else (s', n)

-- `sweep`, of the shards from `n` on downwards, with the number of evictions so far.
unfoldable pub sweep_loop : ℕ → ℕ → Cache → ℕ → Cache × ℕ
sweep_loop now zero c evicted = (c, evicted)
sweep_loop now (suc n) c evicted =
    let i = shard_count - suc n in
    let (s, k) = sweep_shard now (c.shards i) in sweep_loop now n (put_shard i s c) (evicted + k)

unfoldable pub sweep : ℕ → Cache → Cache × ℕ
sweep now c = sweep_loop now shard_count c 0

-- `Flush`.
unfoldable pub flush : Cache → Cache
flush c = record c { shards = λ i. empty_shard }

-- The counts of the loops of `Stats` and `DetailedStats` over one shard.
unfoldable pub count_signed : Bool → EntryMap → ℕ
count_signed negative [] = 0
count_signed negative ((k, e) ∷ m) =
    let rest = count_signed negative m in
    if (if e.negative then negative else not negative) then suc rest else rest

unfoldable pub total : (Shard → ℕ) → ℕ → Cache → ℕ
total f zero c = 0
total f (suc n) c = f (c.shards n) + total f n c

-- `Stats`.
unfoldable pub stats : Cache → ℕ
stats c = total (λ s. length s.entries) shard_count c

-- `DetailedStats`: all entries, the positive ones and the negative ones.
unfoldable pub detailed_stats : Cache → ℕ × ℕ × ℕ
detailed_stats c = (
  total (λ s. length s.entries) shard_count c,
  total (λ s. count_signed false s.entries) shard_count c,
  total (λ s. count_signed true s.entries) shard_count c,
)
