-- ===== src/Tests/Cache.antt =====
-- Runs of the cache.
use labyrinth.Prelude.{
  false, ℕ, ◌≡◌, ◌*◌, refl, true, List, [], ◌∷◌, some, Bytes, arith, inl, inr, if◌then◌else◌, ◌==◌,
  length, map, ap,
}
use labyrinth.Prelude.Select.{Member}
use labyrinth.Text.{equal, to_lower, has_suffix, trim_suffix}
use labyrinth.Text.Zone.{at_or_below_iff}
use labyrinth.Dns.Message.{ResourceRecord, type_a, type_soa}
use labyrinth.Cache.Entry.{
  NegativeType, neg_nx_domain, Entry, second, remaining_ttl, expired, with_decayed_ttl,
  sanitize_wire_ttl, min_ttl_from, extract_ttl, extract_negative_ttl, clamp_ttl, has_any_soa,
  covers_from, authority_covers_name, set_ttl,
}
use labyrinth.Cache.Shard.{
  CacheKey, Shard, same_key, lookup, delete, insert, push_item, is_current, next_item,
  next_eviction_key, evict_loop, shard_limit, enforce_max_entries,
}
use labyrinth.Cache.Shard.Evict.{IsRoomy, enforce_max_entries-some}
use labyrinth.Cache.Store.{
  Cache, new_cache_with_stale, fnv32a_loop, fnv32a, shard_index, put_shard, key_for, positive_entry,
  store_with_status, store_with_ecs_status, store_with_ecs, store_negative, store_failure,
}
use labyrinth.Cache.Store.Room.{IsValid, EndsValid, store-IsValid}
use labyrinth.Cache.Store.Foreign.{Owns, canonical_name, store_negative-foreign}
use labyrinth.Cache.Reads.{find_entry, live, find_or_sentinel, get_entry, get, miss, get_stale}
use labyrinth.Cache.Reads.Stale.{get_stale-get}
use labyrinth.Tests.Names.{text}
use labyrinth.Tests.Samples.{record_of, address, www}

program : Unit {0}
unfolding equal to_lower has_suffix trim_suffix remaining_ttl expired with_decayed_ttl
    sanitize_wire_ttl min_ttl_from extract_ttl extract_negative_ttl clamp_ttl has_any_soa
    covers_from authority_covers_name same_key lookup delete insert push_item is_current next_item
    next_eviction_key evict_loop enforce_max_entries fnv32a_loop fnv32a shard_index put_shard
    find_entry live find_or_sentinel get_entry get get_stale
program = tt

abbrev pub empty : Cache
empty = new_cache_with_stale 1000 5 86400 3600 true 30

abbrev pub name : Bytes
name = text "www.example.com"

abbrev pub entry : Entry
entry = positive_entry 0 empty 0 (www ∷ []) [] []

abbrev pub key : CacheKey
key = key_for name type_a 1

-- The cache with one answer, valid for 300 seconds from time 0.
abbrev one : Cache
one = put_shard (shard_index name) (record { entries = (key, entry) ∷ []; evict_q = [] }) empty

hash_run : fnv32a (text "a") ≡ 0xE40C292C
unfolding program
hash_run = refl

abbrev three : Shard
three = record {
  entries = (key, entry) ∷ (key_for name 2 1, entry) ∷ (key_for name 28 1, entry) ∷ [];
  evict_q = (record { key = key_for name 2 1; entry_id = 1; expires_at = 300 * second }) ∷ [];
}

evict_run :
    enforce_max_entries 0 1 three
    ≡ some (record { entries = (key_for name 28 1, entry) ∷ []; evict_q = [] })
unfolding program labyrinth.Cache.Shard.least_remaining
evict_run = refl

enforce_max_entries-some_example :
    (s' : Shard) × (enforce_max_entries 0 1 three ≡ some s')
    × IsRoomy (if 1 == 0 then length three.entries else shard_limit 1) three.entries s'.entries
unfolding program
enforce_max_entries-some_example =
    enforce_max_entries-some 0 1 three (omega arith, (omega arith, (omega arith, tt)))

pub empty-IsValid : IsValid empty
empty-IsValid = record {
  min_bound = omega arith;
  max_bound = omega arith;
  neg_bound = omega arith;
  ttls = λ i. tt;
  fits = λ i. inr (omega arith);
}

store-IsValid_example :
    ((answers authority : List ResourceRecord) (status : Bytes)
      → EndsValid (store_with_status 0 empty name type_a 1 answers authority status))
    × ((prefix : Bytes) (scope : ℕ) (answers authority : List ResourceRecord) (status : Bytes)
        → EndsValid
            (store_with_ecs_status 0 empty name type_a 1 prefix scope answers authority status))
    × ((prefix : Bytes) (answers authority : List ResourceRecord)
        → EndsValid (store_with_ecs 0 empty name type_a 1 prefix answers authority))
    × ((neg : NegativeType) (rcode : ℕ) (authority : List ResourceRecord)
        → EndsValid (store_negative 0 empty name type_a 1 neg rcode authority))
    × ((ttl : ℕ) → EndsValid (store_failure 0 empty name type_a 1 ttl))
store-IsValid_example = store-IsValid 0 empty name type_a 1 empty-IsValid

get_run :
    (get (100 * second) one (text "WWW.example.com") type_a 1).found
    ≡ some (with_decayed_ttl entry 200)
unfolding program
get_run = refl

-- An SOA record whose data does not parse, so that its own TTL counts.
abbrev soa : ResourceRecord
soa = record_of (text "Example.com.") type_soa address

abbrev evil : ResourceRecord
evil = record_of (text "evil.org") type_soa address

not_owner : ¬ Owns (canonical_name (text "evil.org")) (canonical_name name)
unfolding equal to_lower has_suffix trim_suffix
not_owner (inl e) = absurd (omega (arith, ap length e))
not_owner (inr u) = absurd (cc ((at_or_below_iff (text "www.example.com") (text "evil.org")).1 u))

no_owners :
    (rr : ResourceRecord)
    → Member rr (evil ∷ [])
    → rr.rtype ≡ type_soa
    → ¬ Owns (canonical_name rr.name) (canonical_name name)
no_owners rr (inl e) s = rw (← e) not_owner
no_owners rr (inr m) s = absurd m

store_negative-foreign_example :
    store_negative 0 empty name type_a 1 neg_nx_domain 3 (evil ∷ []) ≡ some empty
store_negative-foreign_example =
    store_negative-foreign 0 empty name type_a 1 neg_nx_domain 3 (evil ∷ []) evil (inl refl) refl
      no_owners

abbrev stale : Entry
stale = with_decayed_ttl entry 30

get_stale-get_example :
    (get (400 * second) one name type_a 1 ≡ miss one)
    × ((e : Entry) × (find_entry (key_for (to_lower name) type_a 1) one ≡ some e)
        × (remaining_ttl e (400 * second) ≡ 0)
        × (stale ≡ record e {
          id = 0;
          records = map (set_ttl one.stale_ttl) e.records;
          authority = map (set_ttl one.stale_ttl) e.authority;
          dnssec_status = [];
          prefetched = false;
        }))
unfolding program
get_stale-get_example = get_stale-get (400 * second) one name type_a 1 stale refl
