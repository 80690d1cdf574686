-- ===== src/Cache/Reads/Stale.antt =====
-- `GetStale` and `Get` of cache/cache.go.
use labyrinth.Prelude.{
  ℕ, true, false, none, some, Bytes, ◌≡◌, inl, inr, arith, ◌∙◌, [], map, Option-cases,
}
use labyrinth.Text.{to_lower}
use labyrinth.Cache.Entry.{Entry, remaining_ttl, with_decayed_ttl, set_ttl}
use labyrinth.Cache.Store.{Cache, key_for}
use labyrinth.Cache.Reads.{find_entry, get_entry, get, get_stale, miss}
use labyrinth.Cache.Reads.Fresh.{get-by_type}

get_entry-stale :
    (now : ℕ) (c : Cache) (e : Entry)
    → c.serve_stale ≡ true
    → remaining_ttl e now ≡ 0
    → (qtype class : ℕ) (name : Bytes) → get_entry now c (key_for name qtype class) e ≡ miss c
unfolding get_entry
get_entry-stale now c e s z qtype class name = ground (arith, s, z)

-- The parts of an answer of `GetStale`.
get_stale-parts :
    (now : ℕ) (c : Cache) (name : Bytes) (qtype class : ℕ) (e found : Entry)
    → find_entry (key_for (to_lower name) qtype class) c ≡ some e
    → get_stale now c name qtype class ≡ some found
    → (c.serve_stale ≡ true)
      × (remaining_ttl e now ≡ 0)
      × (found ≡ record (with_decayed_ttl e c.stale_ttl) { dnssec_status = [] })
unfolding get_stale
get_stale-parts now c name qtype class e found l h =
    (ground (arith, l), ground (arith, l), ground (arith, l))

get_stale-absent :
    (now : ℕ) (c : Cache) (name : Bytes) (qtype class : ℕ) (found : Entry)
    → find_entry (key_for (to_lower name) qtype class) c ≡ none
    → ¬ (get_stale now c name qtype class ≡ some found)
unfolding get_stale
get_stale-absent now c name qtype class found l h = absurd (ground (arith, l))

-- When `GetStale` answers, `Get` at the same time misses and leaves the cache as it is; the answer
-- is the entry for the name and type, which has expired, with the stale TTL in the records of its
-- two sections, no validation status and no mark of a prefetch, and else unchanged.
pub get_stale-get :
    (now : ℕ) (c : Cache) (name : Bytes) (qtype class : ℕ) (found : Entry)
    → get_stale now c name qtype class ≡ some found
    → (get now c name qtype class ≡ miss c)
      × ((e : Entry) × (find_entry (key_for (to_lower name) qtype class) c ≡ some e)
          × (remaining_ttl e now ≡ 0)
          × (found ≡ record e {
            id = 0;
            records = map (set_ttl c.stale_ttl) e.records;
            authority = map (set_ttl c.stale_ttl) e.authority;
            dnssec_status = [];
            prefetched = false;
          }))
unfolding with_decayed_ttl
get_stale-get now c name qtype class found h =
    elim (Option-cases (find_entry (key_for (to_lower name) qtype class) c)) [
      | inl n ↦ absurd (get_stale-absent now c name qtype class found n h)
      | inr (e, l) ↦
          let (s, z, w) = get_stale-parts now c name qtype class e found l h in
          (
            get-by_type now c name qtype class e l
                ∙ get_entry-stale now c e s z qtype class (to_lower name),
            (e, l, z, w),
          )
    ]
