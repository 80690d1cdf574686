-- ===== src/Resolver/LocalZone.antt =====
-- resolver/localzone.go: the zones that the operator serves, and what a question in one is answered.
pub mod Specific
use labyrinth.Prelude.{
  ℕ, ◌+◌, ◌%◌, Bool, true, false, ◌||◌, ◌&&◌, not, List, [], ◌∷◌, map, Option, none, some, Bytes,
  if◌then◌else◌, ltb, ◌==◌, length,
}
use labyrinth.Text.{equal, to_lower, has_suffix, trim_suffix, text}
use labyrinth.Text.Zone.{at_or_below}
use labyrinth.Dns.Message.{ResourceRecord, class_in, rcode_no_error, rcode_nx_domain, rcode_refused}
use labyrinth.Dnssec.Nsec.{count_dots}
use labyrinth.Resolver.World.{Status, ResolveResult, without_records}

pub data LocalZoneType : Type 0 where
  local_static local_deny local_refuse local_redirect local_transparent : LocalZoneType

-- `ParseLocalZoneType`, which looks into a map of five texts.
unfoldable pub parse_local_zone_type : Bytes → Option LocalZoneType
parse_local_zone_type s =
    let lower = to_lower s in
    if equal lower (text "static")
    then some local_static
    else if equal lower (text "deny")
    then some local_deny
    else if equal lower (text "refuse")
    then some local_refuse
    else if equal lower (text "redirect")
    then some local_redirect
    else if equal lower (text "transparent")
    then some local_transparent
    else none

pub record LocalRecord : Type 0 where
  pub name : Bytes
  pub rtype : ℕ
  pub rdata : Bytes
  pub ttl : ℕ

pub record LocalZone : Type 0 where
  pub name : Bytes
  pub zone_type : LocalZoneType
  pub records : List LocalRecord

-- `normalizeName`.
abbrev pub normalize_name : Bytes → Bytes
normalize_name name = to_lower (trim_suffix name (b'.' ∷ []))

abbrev pub normal_record : LocalRecord → LocalRecord
normal_record rec = record rec { name = normalize_name rec.name }

abbrev pub normal_zone : LocalZone → LocalZone
normal_zone z = record z { name = normalize_name z.name; records = map normal_record z.records }

-- Whether a zone goes before another: it has more dots.
abbrev pub goes_before : LocalZone → LocalZone → Bool
goes_before a b = ltb (count_dots b.name) (count_dots a.name)

-- `NewLocalZoneTable`. The argument is `sort.Slice`, which need not keep the order of equal zones.
abbrev pub new_local_zone_table :
    ((LocalZone → LocalZone → Bool) → List LocalZone → List LocalZone)
    → List LocalZone
    → List LocalZone
new_local_zone_table sort_slice zones = sort_slice goes_before (map normal_zone zones)

-- `findZone`.
unfoldable pub find_zone : List LocalZone → Bytes → Option LocalZone
find_zone [] name = none
find_zone (z ∷ zs) name = if at_or_below name z.name then some z else find_zone zs name

-- The record that is answered, under the name of the question; the length has 16 bits.
abbrev pub local_answer : Bytes → LocalRecord → ResourceRecord
local_answer name rec = record {
  name = name;
  rtype = rec.rtype;
  class = class_in;
  ttl = rec.ttl;
  rd_length = length rec.rdata % 65536;
  rdata = rec.rdata;
}

-- `matchRecords`.
unfoldable pub match_records : List LocalRecord → Bytes → ℕ → List ResourceRecord
match_records [] name qtype = []
match_records (rec ∷ recs) name qtype =
    let rest = match_records recs name qtype in
    if equal rec.name name && rec.rtype == qtype then local_answer name rec ∷ rest else rest

-- The loop of `lookupRedirect`.
unfoldable pub redirect_records : List LocalRecord → Bytes → ℕ → List ResourceRecord
redirect_records [] name qtype = []
redirect_records (rec ∷ recs) name qtype =
    let rest = redirect_records recs name qtype in
    if rec.rtype == qtype then local_answer name rec ∷ rest else rest

-- The second loop of `lookupStatic`.
unfoldable pub has_name : List LocalRecord → Bytes → Bool
has_name [] name = false
has_name (rec ∷ recs) name = equal rec.name name || has_name recs name

abbrev pub with_answers : List ResourceRecord → ResolveResult
with_answers rrs = record {
  answers = rrs;
  authority = [];
  additional = [];
  rcode = rcode_no_error;
  status = Status.unset;
  error = none;
}

abbrev pub only_code : ℕ → ResolveResult
only_code code = without_records code Status.unset none

abbrev pub answers_or : List ResourceRecord → Option ResolveResult → Option ResolveResult
answers_or [] other = other
answers_or (rr ∷ rrs) other = some (with_answers (rr ∷ rrs))

-- `lookupStatic`.
unfoldable pub lookup_static : LocalZone → Bytes → ℕ → Option ResolveResult
lookup_static z name qtype = answers_or (match_records z.records name qtype) (
    if has_name z.records name
    then some (only_code rcode_no_error)
    else some (only_code rcode_nx_domain))

-- `lookupRedirect`.
unfoldable pub lookup_redirect : LocalZone → Bytes → ℕ → Option ResolveResult
lookup_redirect z name qtype =
    answers_or (redirect_records z.records name qtype) (some (only_code rcode_no_error))

-- `lookupTransparent`.
unfoldable pub lookup_transparent : LocalZone → Bytes → ℕ → Option ResolveResult
lookup_transparent z name qtype = answers_or (match_records z.records name qtype) none

-- The switch over the type of the zone.
unfoldable pub lookup_in : LocalZoneType → LocalZone → Bytes → ℕ → Option ResolveResult
lookup_in local_static z name qtype = lookup_static z name qtype
lookup_in local_deny z name qtype = some (without_records rcode_refused Status.local_deny none)
lookup_in local_refuse z name qtype = some (only_code rcode_refused)
lookup_in local_redirect z name qtype = lookup_redirect z name qtype
lookup_in local_transparent z name qtype = lookup_transparent z name qtype

abbrev pub lookup_found : Option LocalZone → Bytes → ℕ → Option ResolveResult
lookup_found none name qtype = none
lookup_found (some z) name qtype = lookup_in z.zone_type z name qtype

-- `Lookup`; `none` is the nil result, by which the query falls through.
unfoldable pub local_lookup : List LocalZone → Bytes → ℕ → ℕ → Option ResolveResult
local_lookup zones name qtype class =
    if not (class == class_in)
    then none
    else lookup_found (find_zone zones (normalize_name name)) (normalize_name name) qtype
