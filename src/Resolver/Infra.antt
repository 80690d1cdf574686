-- ===== src/Resolver/Infra.antt =====
-- resolver/infracache.go: what is known of each name server, and the order in which they are tried.
-- A duration is a number of nanoseconds; the map is a list with one entry for a key.
pub mod Ranking
use labyrinth.Prelude.{
  ℕ, ◌+◌, ◌*◌, Bool, true, false, List, [], ◌∷◌, Option, none, some, Bytes, if◌then◌else◌, ltb, leb,
  ◌==◌, length,
}
use labyrinth.Text.{equal}
use labyrinth.Security.Bailiwick.{contains}

-- `nsEntry` of resolver/resolver.go.
pub record NsEntry : Type 0 where
  pub hostname : Bytes
  pub ipv4 : Bytes
  pub ipv6 : Bytes

-- `NSInfo`.
pub record NsInfo : Type 0 where
  pub rtt : ℕ
  pub fail_count : ℕ
  pub lame_zones : List Bytes
  pub last_used : ℕ

-- `InfraCache`.
abbrev pub InfraCache : Type 0
InfraCache = List (Bytes × NsInfo)

-- `NewInfraCache`.
abbrev pub new_infra_cache : InfraCache
new_infra_cache = []

-- `ic.entries[nsIP]`.
unfoldable pub info_at : Bytes → InfraCache → Option NsInfo
info_at ip [] = none
info_at ip ((k, info) ∷ rest) = if equal k ip then some info else info_at ip rest

-- `ic.entries[nsIP] = info`, and the writes through the pointer that the map holds.
unfoldable pub put_info : Bytes → NsInfo → InfraCache → InfraCache
put_info ip info [] = (ip, info) ∷ []
put_info ip info ((k, old) ∷ rest) =
    if equal k ip then (k, info) ∷ rest else (k, old) ∷ put_info ip info rest

abbrev pub or_new : ℕ → Option NsInfo → NsInfo
or_new now none = record { rtt = 0; fail_count = 0; lame_zones = []; last_used = now }
or_new now (some info) = info

-- `getOrCreate`, with the time of use that each of its callers writes.
abbrev pub get_or_create : ℕ → Bytes → InfraCache → NsInfo
get_or_create now ip ic = record (or_new now (info_at ip ic)) { last_used = now }

-- `RecordRTT`. The mean weighs the old time by 0.7 and the sample by 0.3 in floating point.
unfoldable pub record_rtt : (ℕ → ℕ → ℕ) → ℕ → Bytes → ℕ → InfraCache → InfraCache
record_rtt mean now ip rtt ic =
    let info = get_or_create now ip ic in
    put_info ip (record info { rtt = if info.rtt == 0 then rtt else mean info.rtt rtt }) ic

-- `RecordFailure`.
unfoldable pub record_failure : ℕ → Bytes → InfraCache → InfraCache
record_failure now ip ic =
    let info = get_or_create now ip ic in
    put_info ip (record info { fail_count = info.fail_count + 1 }) ic

-- `RecordLame`.
unfoldable pub record_lame : ℕ → Bytes → Bytes → InfraCache → InfraCache
record_lame now ip zone ic =
    let info = get_or_create now ip ic in
    put_info ip (record info { lame_zones = zone ∷ info.lame_zones }) ic

-- `IsLame`.
unfoldable pub is_lame : Bytes → Bytes → InfraCache → Bool
is_lame ip zone ic = elim (info_at ip ic) [
  | none ↦ false
  | some info ↦ contains info.lame_zones zone
]

-- 100 milliseconds, which stand for an unknown time.
abbrev pub default_rtt : ℕ
default_rtt = 100000000

-- 500 milliseconds for each failure.
abbrev pub failure_penalty : ℕ
failure_penalty = 500000000

abbrev pub rtt_of : Option NsInfo → ℕ
rtt_of none = default_rtt
rtt_of (some info) =
    (if info.rtt == 0 then default_rtt else info.rtt) + info.fail_count * failure_penalty

-- `effectiveRTT`.
unfoldable pub effective_rtt : InfraCache → Bytes → ℕ
effective_rtt ic ip = rtt_of (info_at ip ic)

-- The address that the comparison looks at.
abbrev pub rtt_address : NsEntry → Bytes
rtt_address e = if equal e.ipv4 [] then e.ipv6 else e.ipv4

abbrev pub entry_rtt : InfraCache → NsEntry → ℕ
entry_rtt ic e = effective_rtt ic (rtt_address e)

-- One entry put before the first that is not faster.
unfoldable pub insert_entry : InfraCache → NsEntry → List NsEntry → List NsEntry
insert_entry ic e [] = e ∷ []
insert_entry ic e (x ∷ xs) =
    if leb (entry_rtt ic e) (entry_rtt ic x) then e ∷ x ∷ xs else x ∷ insert_entry ic e xs

-- `SortByRTT`; the result of `sort.SliceStable` is that of any stable sort.
unfoldable pub sort_by_rtt : InfraCache → List NsEntry → List NsEntry
sort_by_rtt ic [] = []
sort_by_rtt ic (e ∷ es) = insert_entry ic e (sort_by_rtt ic es)

-- `CleanStale`.
unfoldable pub clean_stale : ℕ → ℕ → InfraCache → InfraCache
clean_stale now max_idle [] = []
clean_stale now max_idle ((ip, info) ∷ rest) =
    if ltb (info.last_used + max_idle) now
    then clean_stale now max_idle rest
    else (ip, info) ∷ clean_stale now max_idle rest

-- `Len` and `GetRTT`.
abbrev pub infra_length : InfraCache → ℕ
infra_length ic = length ic

unfoldable pub get_rtt : Bytes → InfraCache → ℕ
get_rtt ip ic = elim (info_at ip ic) [ none ↦ 0 | some info ↦ info.rtt ]
