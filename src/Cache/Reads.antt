-- ===== src/Cache/Reads.antt =====
-- cache/cache.go: the operations that read, and `Delete`. `time.Since` is asked once per operation.
pub mod Fresh
pub mod Stored
pub mod Stale
pub mod Keeps
use labyrinth.Prelude.{
  ℕ, ◌-◌, ◌/◌, Bool, true, false, ◌&&◌, not, List, [], ◌∷◌, Option, none, some, Bytes,
  if◌then◌else◌, ltb, ◌==◌,
}
use labyrinth.Text.{equal, to_lower}
use labyrinth.Cache.Entry.{Entry, remaining_ttl, with_decayed_ttl}
use labyrinth.Cache.Shard.{CacheKey, EntryMap, Shard, lookup, delete, insert}
use labyrinth.Cache.Store.{Cache, shard_index, put_shard, key_for, key_with_ecs}

-- The entry under a key, read under the lock of the key's shard.
unfoldable pub find_entry : CacheKey → Cache → Option Entry
find_entry key c = lookup key (c.shards (shard_index key.name)).entries

-- An entry that still has time to live, as it is returned.
unfoldable pub live : ℕ → Entry → Option Entry
live now e =
    if remaining_ttl e now == 0 then none else some (with_decayed_ttl e (remaining_ttl e now))

abbrev pub live_of : ℕ → Option Entry → Option Entry
live_of now none = none
live_of now (some e) = live now e

abbrev pub or_else : Option Entry → Option Entry → Option Entry
or_else none other = other
or_else (some e) other = some e

-- The loop of `checkParentNXDomain`. The program looks for the next dot and goes on behind it, so
-- it reads the name once from left to right; at every dot with something behind it, it asks for the
-- NXDOMAIN entry of what is behind it.
unfoldable pub check_parent_nx_domain : ℕ → Cache → ℕ → Bytes → Option Entry
check_parent_nx_domain now c class [] = none
check_parent_nx_domain now c class (b ∷ rest) =
    let above = check_parent_nx_domain now c class rest in
    if not (b == b'.')
    then above
    else if equal rest []
    then none
    else or_else (live_of now (find_entry (key_for rest 0 class) c)) above

-- The first lines of `Get`: the key whose entry is taken, and the entry.
unfoldable pub find_or_sentinel : Cache → Bytes → ℕ → ℕ → Option (CacheKey × Entry)
find_or_sentinel c name qtype class = elim (find_entry (key_for name qtype class) c) [
  | some e ↦ some (key_for name qtype class, e)
  | none ↦ if qtype == 0 then none else elim (find_entry (key_for name 0 class) c) [
    | some e ↦ some (key_for name 0 class, e)
    | none ↦ none
  ]
]

-- `delete(s.entries, key)` under the lock of the key's shard.
unfoldable pub drop_key : CacheKey → Cache → Cache
drop_key key c =
    let i = shard_index key.name in
    let s = c.shards i in put_shard i (record s { entries = delete key s.entries }) c

-- `remaining < threshold`, the threshold being a tenth of the TTL and at least 1.
unfoldable pub prefetch_due : Entry → ℕ → Bool
prefetch_due e remaining =
    let threshold = e.orig_ttl / 10 in ltb remaining (if threshold == 0 then 1 else threshold)

-- The winner of `tryPrefetch` marks the entry, which the map and the caller share.
unfoldable pub mark_prefetched : CacheKey → Entry → Cache → Cache
mark_prefetched key e c =
    let i = shard_index key.name in
    let s = c.shards i in
    put_shard i (record s { entries = insert key (record e { prefetched = true }) s.entries }) c

-- What `Get` answers, the cache afterwards, and whether it starts a prefetch.
pub record GetResult : Type 0 where
  pub found : Option Entry
  pub cache : Cache
  pub prefetch : Bool

abbrev pub miss : Cache → GetResult
miss c = record { found = none; cache = c; prefetch = false }

-- The second half of `Get`, with the entry of a key.
unfoldable pub get_entry : ℕ → Cache → CacheKey → Entry → GetResult
get_entry now c key e =
    let remaining = remaining_ttl e now in
    let starts =
      c.prefetch_enabled && c.has_prefetch_func && prefetch_due e remaining && not e.prefetched in
    if remaining == 0 then miss (if c.serve_stale then c else drop_key key c) else record {
      found = some (with_decayed_ttl e remaining);
      cache = if starts then mark_prefetched key e c else c;
      prefetch = starts;
    }

-- `Get`, with nothing else between its lock sections.
unfoldable pub get : ℕ → Cache → Bytes → ℕ → ℕ → GetResult
get now c name qtype class =
    let n = to_lower name in
    elim (find_or_sentinel c n qtype class) [
      | some (key, e) ↦ get_entry now c key e
      | none ↦ record {
        found =
            if c.harden_below_nx && not (qtype == 0)
            then check_parent_nx_domain now c class n
            else none;
        cache = c;
        prefetch = false;
      }
    ]

-- `GetStale`.
unfoldable pub get_stale : ℕ → Cache → Bytes → ℕ → ℕ → Option Entry
get_stale now c name qtype class =
    if not c.serve_stale then none else elim (find_entry (key_for (to_lower name) qtype class) c) [
      | none ↦ none
      | some e ↦
          if ltb 0 (remaining_ttl e now)
          then none
          else some (record (with_decayed_ttl e c.stale_ttl) { dnssec_status = [] })
    ]

-- `Lookup`.
unfoldable pub lookup_only : ℕ → Cache → Bytes → ℕ → ℕ → Option Entry
lookup_only now c name qtype class =
    live_of now (find_entry (key_for (to_lower name) qtype class) c)

-- The loop of `LookupAll` over the map of a shard.
unfoldable pub collect : ℕ → Bytes → ℕ → EntryMap → List Entry
collect now name class [] = []
collect now name class ((k, e) ∷ m) =
    if equal k.name name && k.class == class
    then elim (live now e) [
      | none ↦ collect now name class m
      | some e' ↦ e' ∷ collect now name class m
    ]
    else collect now name class m

-- `LookupAll`.
unfoldable pub lookup_all : ℕ → Cache → Bytes → ℕ → List Entry
lookup_all now c name class =
    collect now (to_lower name) class (c.shards (shard_index (to_lower name))).entries

-- `Delete`.
unfoldable pub delete_name : Cache → Bytes → ℕ → ℕ → Cache × Bool
delete_name c name qtype class =
    let key = key_for (to_lower name) qtype class in
    elim (find_entry key c) [ none ↦ (c, false) | some e ↦ (drop_key key c, true) ]

-- `GetWithECS`; under a prefix nothing is deleted and nothing prefetched.
unfoldable pub get_with_ecs : ℕ → Cache → Bytes → ℕ → ℕ → Bytes → GetResult
get_with_ecs now c name qtype class prefix =
    if equal prefix [] then get now c name qtype class else record {
      found = live_of now (find_entry (key_with_ecs (to_lower name) qtype class prefix) c);
      cache = c;
      prefetch = false;
    }
