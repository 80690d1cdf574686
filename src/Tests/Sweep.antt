-- ===== src/Tests/Sweep.antt =====
-- Runs of the sweep, on a cache with one answer.
use labyrinth.Prelude.{ℕ, ◌≡◌, ◌*◌, ◌==◌, List, Bytes, arith, inl, inr, Bool-cases, subst}
use labyrinth.Dns.Message.{ResourceRecord, type_a}
use labyrinth.Cache.Entry.{NegativeType, Entry, second, expired, remaining_ttl}
use labyrinth.Cache.Shard.{Shard, empty_shard, lookup, delete, insert, push_eviction_entry}
use labyrinth.Cache.Shard.Queue.{push_eviction_entry-IsQueued}
use labyrinth.Cache.Shard.Expire.{IsTimely, AllTimely, unexpired}
use labyrinth.Cache.Store.{
  Cache, shard_index, put_shard, store_with_status, store_with_ecs_status, store_with_ecs,
  store_negative, store_failure,
}
use labyrinth.Cache.Store.Room.{put_shard-IsValid, with_entry}
use labyrinth.Cache.Store.Queued.{AllQueued, KeepsQueues, put_shard-AllQueued, store-AllQueued}
use labyrinth.Cache.Reads.{find_entry, get, delete_name}
use labyrinth.Cache.Reads.Keeps.{IsSound, get-IsSound}
use labyrinth.Cache.Sweep.{sweep}
use labyrinth.Cache.Sweep.Exact.{find_entry-sweep}
use labyrinth.Tests.Cache.{empty, name, entry, key, empty-IsValid}

-- The shard of the answer.
abbrev filled : Shard
filled = with_entry key entry empty_shard

abbrev one : Cache
one = put_shard (shard_index name) filled empty

pub empty-AllQueued : AllQueued empty
unfolding lookup
empty-AllQueued i = (tt, λ k e l. absurd cc)

one-IsSound : IsSound one
unfolding push_eviction_entry insert delete labyrinth.Cache.Entry.clamp_ttl
    labyrinth.Cache.Entry.extract_ttl labyrinth.Cache.Entry.min_ttl_from
    labyrinth.Cache.Entry.sanitize_wire_ttl
one-IsSound = record {
  valid =
      put_shard-IsValid (shard_index name) filled empty empty.next_id empty-IsValid
        (omega arith, tt) (inr (omega arith));
  queued =
      put_shard-AllQueued (shard_index name) filled empty empty.next_id empty-AllQueued
        (push_eviction_entry-IsQueued key entry empty_shard (empty-AllQueued 0));
}

filled-AllTimely : AllTimely (301 * second) filled.entries
unfolding lookup push_eviction_entry insert delete labyrinth.Cache.Entry.clamp_ttl
    labyrinth.Cache.Entry.extract_ttl labyrinth.Cache.Entry.min_ttl_from
    labyrinth.Cache.Entry.sanitize_wire_ttl
filled-AllTimely k e l =
    let d : entry ≡ e = ground arith in
    subst (λ t. IsTimely (301 * second) t) d
      (record { after = omega arith; before = omega arith; width = omega arith })

one-AllTimely : (i : ℕ) → AllTimely (301 * second) (one.shards i).entries
unfolding put_shard lookup
one-AllTimely i = elim (Bool-cases (i == shard_index name)) [
  | inl e ↦ rw e filled-AllTimely
  | inr d ↦ rw d (λ k e l. absurd cc)
]

find_entry-sweep_example :
    find_entry key (sweep (301 * second) one).0 ≡ unexpired (301 * second) (find_entry key one)
find_entry-sweep_example = find_entry-sweep (301 * second) one key one-IsSound.queued one-AllTimely

get-IsSound_example :
    IsSound (get (301 * second) one name type_a 1).cache × IsSound (delete_name one name type_a 1).0
get-IsSound_example = get-IsSound (301 * second) one name type_a 1 one-IsSound

store-AllQueued_example :
    ((answers authority : List ResourceRecord) (status : Bytes)
      → KeepsQueues (store_with_status 0 empty name type_a 1 answers authority status))
    × ((prefix : Bytes) (scope : ℕ) (answers authority : List ResourceRecord) (status : Bytes)
        → KeepsQueues
            (store_with_ecs_status 0 empty name type_a 1 prefix scope answers authority status))
    × ((prefix : Bytes) (answers authority : List ResourceRecord)
        → KeepsQueues (store_with_ecs 0 empty name type_a 1 prefix answers authority))
    × ((neg : NegativeType) (rcode : ℕ) (authority : List ResourceRecord)
        → KeepsQueues (store_negative 0 empty name type_a 1 neg rcode authority))
    × ((ttl : ℕ) → KeepsQueues (store_failure 0 empty name type_a 1 ttl))
store-AllQueued_example = store-AllQueued 0 empty name type_a 1 empty-AllQueued
