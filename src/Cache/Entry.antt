-- ===== src/Cache/Entry.antt =====
-- cache/entry.go and the functions of cache/cache.go on TTLs. Time is a count of nanoseconds of the
-- monotonic clock that `time.Now` carries, so it does not run backwards.
pub mod Ttl
use Prim.Native.Nat.{bit_and}
use labyrinth.Prelude.{
  ℕ, zero, suc, ◌+◌, ◌-◌, ◌*◌, ◌/◌, ◌%◌, ◌^◌, Bool, true, false, ◌||◌, ◌&&◌, not, List, [], ◌∷◌,
  map, Option, none, some, Bytes, if◌then◌else◌, ltb, leb, ◌==◌,
}
use labyrinth.Text.{equal, to_lower, has_suffix, trim_suffix}
use labyrinth.Dns.Wire.{Result, ok, err}
use labyrinth.Dns.Message.{ResourceRecord, type_soa}
use labyrinth.Dns.Rdata.{SoaRecord, parse_soa}

-- `NegativeType`.
pub data NegativeType : Type 0 where
  neg_none neg_nx_domain neg_no_data neg_serv_fail : NegativeType

-- `Entry`. `id` tells one allocation from another: two pointers are equal when the ids are. The
-- validator's verdict `DNSSECStatus` is its text.
pub record Entry : Type 0 where
  pub id : ℕ
  pub records : List ResourceRecord
  pub authority : List ResourceRecord
  pub inserted_at : ℕ
  pub orig_ttl : ℕ
  pub negative : Bool
  pub neg_type : NegativeType
  pub soa : Option ResourceRecord
  pub rcode : ℕ
  pub dnssec_status : Bytes
  pub ecs_scope : ℕ
  pub prefetched : Bool

abbrev pub second : ℕ
second = 1000000000

-- `uint32(time.Since(e.InsertedAt).Seconds())`.
abbrev pub elapsed : Entry → ℕ → ℕ
elapsed e now = (now - e.inserted_at) / second % 4294967296

-- `RemainingTTL`.
unfoldable pub remaining_ttl : Entry → ℕ → ℕ
remaining_ttl e now = if leb e.orig_ttl (elapsed e now) then 0 else e.orig_ttl - elapsed e now

-- `Expired`.
unfoldable pub expired : Entry → ℕ → Bool
expired e now = remaining_ttl e now == 0

abbrev pub set_ttl : ℕ → ResourceRecord → ResourceRecord
set_ttl ttl rr = record rr { ttl = ttl }

-- `WithDecayedTTL`: a copy, so it has an id of its own and is not marked as prefetched. No pointer
-- to a copy is compared, and 0 stands for its id.
unfoldable pub with_decayed_ttl : Entry → ℕ → Entry
with_decayed_ttl e remaining = record e {
  id = 0;
  records = map (set_ttl remaining) e.records;
  authority = map (set_ttl remaining) e.authority;
  prefetched = false;
}

-- `sanitizeWireTTL`.
unfoldable pub sanitize_wire_ttl : ℕ → ℕ
sanitize_wire_ttl ttl = if not (bit_and ttl 0x80000000 == 0) then 0 else ttl

-- The loop of `extractTTL`.
unfoldable pub min_ttl_from : ℕ → List ResourceRecord → ℕ
min_ttl_from least [] = least
min_ttl_from least (rr ∷ rrs) =
    let t = sanitize_wire_ttl rr.ttl in min_ttl_from (if ltb t least then t else least) rrs

-- `extractTTL`, with the `minTTL` of the cache.
unfoldable pub extract_ttl : ℕ → List ResourceRecord → ℕ
extract_ttl min_ttl [] = min_ttl
extract_ttl min_ttl (rr ∷ rrs) = min_ttl_from (sanitize_wire_ttl rr.ttl) rrs

-- The TTL that one SOA record gives.
abbrev pub soa_ttl : ResourceRecord → Result SoaRecord → ℕ
soa_ttl rr (ok soa) =
    let ttl = sanitize_wire_ttl rr.ttl in
    let m = sanitize_wire_ttl soa.minimum in if ltb m ttl then m else ttl
soa_ttl rr (err e) = sanitize_wire_ttl rr.ttl

abbrev pub negative_ttl_fallback : ℕ
negative_ttl_fallback = 60

-- `extractNegativeTTL`.
unfoldable pub extract_negative_ttl : List ResourceRecord → ℕ
extract_negative_ttl [] = negative_ttl_fallback
extract_negative_ttl (rr ∷ rrs) =
    if rr.rtype == type_soa && not (equal rr.rdata [])
    then soa_ttl rr (parse_soa rr.rdata 0)
    else extract_negative_ttl rrs

-- `clampTTL` and `clampNegativeTTL`, which differ in the upper bound.
unfoldable pub clamp_ttl : ℕ → ℕ → ℕ → ℕ
clamp_ttl min_ttl max_ttl ttl =
    if ltb ttl min_ttl then min_ttl else if ltb max_ttl ttl then max_ttl else ttl

abbrev pub max_failure_ttl : ℕ
max_failure_ttl = 30

abbrev pub default_failure_ttl : ℕ
default_failure_ttl = 5

-- The first lines of `StoreFailure`.
unfoldable pub failure_ttl : ℕ → ℕ
failure_ttl ttl =
    let t = if ttl == 0 then default_failure_ttl else ttl in
    if ltb max_failure_ttl t then max_failure_ttl else t

-- `hasAnySOA`.
unfoldable pub has_any_soa : List ResourceRecord → Bool
has_any_soa [] = false
has_any_soa (rr ∷ rrs) = if rr.rtype == type_soa then true else has_any_soa rrs

abbrev pub covers : Bytes → Bytes → Bool
covers q owner = equal owner [] || equal owner q || has_suffix q (b'.' ∷ owner)

-- `authorityCoversName`; `q` is the name in its canonical form.
unfoldable pub covers_from : Bytes → List ResourceRecord → Bool
covers_from q [] = false
covers_from q (rr ∷ rrs) =
    if not (rr.rtype == type_soa)
    then covers_from q rrs
    else if covers q (to_lower (trim_suffix rr.name (b'.' ∷ [])))
    then true
    else covers_from q rrs

unfoldable pub authority_covers_name : Bytes → List ResourceRecord → Bool
authority_covers_name qname rrs = covers_from (to_lower (trim_suffix qname (b'.' ∷ []))) rrs

-- The loop of `StoreNegative` for the first SOA record.
unfoldable pub first_soa : List ResourceRecord → Option ResourceRecord
first_soa [] = none
first_soa (rr ∷ rrs) = if rr.rtype == type_soa then some rr else first_soa rrs
