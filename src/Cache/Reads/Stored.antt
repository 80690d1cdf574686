-- ===== src/Cache/Reads/Stored.antt =====
-- `Get` of cache/cache.go after a store operation.
use labyrinth.Prelude.{◌+◌}
use labyrinth.Cache.Entry.{Entry}
use labyrinth.Cache.Shard.{CacheKey, insert}
use labyrinth.Cache.Store.{Cache, shard_index, put_shard}
use labyrinth.Cache.Store.Room.{Fits, with_entry}

-- The shard of the key has room for the entry, so that nothing is evicted.
abbrev pub HasRoom : Cache → CacheKey → Entry → Type 0
HasRoom c key e = Fits c.max_entries (insert key e (c.shards (shard_index key.name)).entries)

-- The cache with the entry in its shard.
abbrev pub with_stored : CacheKey → Entry → Cache → Cache
with_stored key e c =
    put_shard (shard_index key.name) (with_entry key e (c.shards (shard_index key.name)))
      (record c { next_id = c.next_id + 1 })
