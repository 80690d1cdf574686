-- ===== src/Cache/Store.antt =====
-- cache/cache.go: the cache, and the operations that store. Every operation takes the time that
-- `time.Now` tells; it holds one shard's lock while it changes the shard, so it is one step.
pub mod Room
pub mod Foreign
pub mod Queued
use Prim.Native.Nat.{bit_xor}
use labyrinth.Prelude.{
  ℕ, ◌+◌, ◌*◌, ◌%◌, Bool, true, false, ◌&&◌, not, List, [], ◌∷◌, Option, none, some, Bytes,
  if◌then◌else◌, ◌==◌,
}
use labyrinth.Text.{equal, to_lower}
use labyrinth.Dns.Message.{ResourceRecord}
use labyrinth.Cache.Entry.{
  NegativeType, neg_none, neg_nx_domain, neg_no_data, neg_serv_fail, Entry, extract_ttl,
  extract_negative_ttl, clamp_ttl, failure_ttl, has_any_soa, authority_covers_name, first_soa,
}
use labyrinth.Cache.Shard.{
  CacheKey, Shard, empty_shard, insert, push_eviction_entry, enforce_max_entries,
}

-- `Cache`. `next_id` is the id of the next entry that is allocated; whether there is a prefetch
-- callback is the flag `has_prefetch_func`.
pub record Cache : Type 0 where
  pub shards : ℕ → Shard
  pub max_entries : ℕ
  pub min_ttl : ℕ
  pub max_ttl : ℕ
  pub neg_max_ttl : ℕ
  pub serve_stale : Bool
  pub stale_ttl : ℕ
  pub harden_below_nx : Bool
  pub prefetch_enabled : Bool
  pub has_prefetch_func : Bool
  pub next_id : ℕ

-- `NewCacheWithStale`; the metrics are left out.
abbrev pub new_cache_with_stale : ℕ → ℕ → ℕ → ℕ → Bool → ℕ → Cache
new_cache_with_stale max_entries min_ttl max_ttl neg_max_ttl serve_stale stale_ttl = record {
  shards = λ i. empty_shard;
  max_entries = max_entries;
  min_ttl = min_ttl;
  max_ttl = max_ttl;
  neg_max_ttl = neg_max_ttl;
  serve_stale = serve_stale;
  stale_ttl = stale_ttl;
  harden_below_nx = false;
  prefetch_enabled = false;
  has_prefetch_func = false;
  next_id = 1;
}

-- `NewCache`.
abbrev pub new_cache : ℕ → ℕ → ℕ → ℕ → Cache
new_cache max_entries min_ttl max_ttl neg_max_ttl =
    new_cache_with_stale max_entries min_ttl max_ttl neg_max_ttl false 30

-- The loop of `fnv32a`.
unfoldable pub fnv32a_loop : ℕ → Bytes → ℕ
fnv32a_loop h [] = h
fnv32a_loop h (b ∷ s) = fnv32a_loop (bit_xor h b * 16777619 % 4294967296) s

-- `fnv32a`.
unfoldable pub fnv32a : Bytes → ℕ
fnv32a s = fnv32a_loop 2166136261 s

-- `shardIndex`.
unfoldable pub shard_index : Bytes → ℕ
shard_index name = fnv32a name % 256

-- `c.shards[i] = s`.
unfoldable pub put_shard : ℕ → Shard → Cache → Cache
put_shard i s c = record c { shards = λ j. if j == i then s else c.shards j }

abbrev pub key_for : Bytes → ℕ → ℕ → CacheKey
key_for name qtype class = record { name = name; qtype = qtype; class = class; ecs_prefix = [] }

-- The locked part that the store operations share: the entry is put in, its queue item pushed and
-- the limit enforced. `none` would be a loop that does not end.
unfoldable pub put_entry : ℕ → CacheKey → Entry → Cache → Option Cache
put_entry now key e c =
    let i = shard_index key.name in
    let s = c.shards i in
    let s' = push_eviction_entry key e (record s { entries = insert key e s.entries }) in
    elim (enforce_max_entries now c.max_entries s') [
      | none ↦ none
      | some s'' ↦ some (put_shard i s'' (record c { next_id = c.next_id + 1 }))
    ]

-- The entry of a positive answer; `cloneRRs` makes a copy with the same value.
abbrev pub positive_entry :
    ℕ → Cache → ℕ → List ResourceRecord → List ResourceRecord → Bytes → Entry
positive_entry now c scope answers authority status = record {
  id = c.next_id;
  records = answers;
  authority = authority;
  inserted_at = now;
  orig_ttl = clamp_ttl c.min_ttl c.max_ttl (extract_ttl c.min_ttl answers);
  negative = false;
  neg_type = neg_none;
  soa = none;
  rcode = 0;
  dnssec_status = status;
  ecs_scope = scope;
  prefetched = false;
}

-- `StoreWithStatus`.
unfoldable pub store_with_status :
    ℕ → Cache → Bytes → ℕ → ℕ → List ResourceRecord → List ResourceRecord → Bytes → Option Cache
store_with_status now c name qtype class answers authority status =
    if extract_ttl c.min_ttl answers == 0
    then some c
    else put_entry now (key_for (to_lower name) qtype class)
        (positive_entry now c 0 answers authority status) c

-- `Store`.
unfoldable pub store :
    ℕ → Cache → Bytes → ℕ → ℕ → List ResourceRecord → List ResourceRecord → Option Cache
store now c name qtype class answers authority =
    store_with_status now c name qtype class answers authority []

abbrev pub key_with_ecs : Bytes → ℕ → ℕ → Bytes → CacheKey
key_with_ecs name qtype class prefix = record {
  name = name;
  qtype = qtype;
  class = class;
  ecs_prefix = prefix;
}

-- `StoreWithECSStatus`.
unfoldable pub store_with_ecs_status :
    ℕ
    → Cache
    → Bytes
    → ℕ
    → ℕ
    → Bytes
    → ℕ
    → List ResourceRecord
    → List ResourceRecord
    → Bytes
    → Option Cache
store_with_ecs_status now c name qtype class prefix scope answers authority status =
    if equal prefix []
    then store_with_status now c name qtype class answers authority status
    else if extract_ttl c.min_ttl answers == 0
    then some c
    else put_entry now (key_with_ecs (to_lower name) qtype class prefix)
        (positive_entry now c scope answers authority status) c

-- `StoreWithECS`.
unfoldable pub store_with_ecs :
    ℕ → Cache → Bytes → ℕ → ℕ → Bytes → List ResourceRecord → List ResourceRecord → Option Cache
store_with_ecs now c name qtype class prefix answers authority =
    if equal prefix []
    then store now c name qtype class answers authority
    else put_entry now (key_with_ecs (to_lower name) qtype class prefix)
        (positive_entry now c 0 answers authority []) c

abbrev pub is_nx_domain : NegativeType → Bool
is_nx_domain neg_nx_domain = true
is_nx_domain neg_none = false
is_nx_domain neg_no_data = false
is_nx_domain neg_serv_fail = false

-- The entry of a negative answer.
abbrev pub negative_entry : ℕ → Cache → NegativeType → ℕ → List ResourceRecord → Entry
negative_entry now c neg rcode authority = record {
  id = c.next_id;
  records = [];
  authority = authority;
  inserted_at = now;
  orig_ttl = clamp_ttl c.min_ttl c.neg_max_ttl (extract_negative_ttl authority);
  negative = true;
  neg_type = neg;
  soa = first_soa authority;
  rcode = rcode;
  dnssec_status = [];
  ecs_scope = 0;
  prefetched = false;
}

-- `StoreNegative`.
unfoldable pub store_negative :
    ℕ → Cache → Bytes → ℕ → ℕ → NegativeType → ℕ → List ResourceRecord → Option Cache
store_negative now c name qtype class neg rcode authority =
    if has_any_soa authority && not (authority_covers_name name authority)
    then some c
    else if extract_negative_ttl authority == 0
    then some c
    else put_entry now (key_for (to_lower name) (if is_nx_domain neg then 0 else qtype) class)
        (negative_entry now c neg rcode authority) c

-- The entry of a failure.
abbrev pub failure_entry : ℕ → Cache → ℕ → Entry
failure_entry now c ttl = record {
  id = c.next_id;
  records = [];
  authority = [];
  inserted_at = now;
  orig_ttl = failure_ttl ttl;
  negative = true;
  neg_type = neg_serv_fail;
  soa = none;
  rcode = 2;
  dnssec_status = [];
  ecs_scope = 0;
  prefetched = false;
}

-- `StoreFailure`.
unfoldable pub store_failure : ℕ → Cache → Bytes → ℕ → ℕ → ℕ → Option Cache
store_failure now c name qtype class ttl =
    put_entry now (key_for (to_lower name) qtype class) (failure_entry now c ttl) c
