-- ===== src/Security/Bailiwick.antt =====
-- security/bailiwick.go: `SanitizeBailiwick`.
pub mod Kept
pub mod Sound
pub mod Sanitize
use labyrinth.Prelude.{
  Bool, true, false, ◌||◌, ◌&&◌, not, List, [], ◌∷◌, ◌++◌, Bytes, if◌then◌else◌, ◌==◌,
}
use labyrinth.Text.{equal, to_lower, has_suffix}
use labyrinth.Dns.Wire.{Result, ok, err}
use labyrinth.Dns.Message.{ResourceRecord, Message, type_ns, type_opt}
use labyrinth.Dns.Rdata.{parse_name}

-- Whether a key is in a `map[string]struct{}`, kept as a list.
unfoldable pub contains : List Bytes → Bytes → Bool
contains [] key = false
contains (k ∷ ks) key = equal k key || contains ks key

-- `InZone`.
unfoldable pub in_zone : Bytes → Bytes → Bool
in_zone name zone =
    if equal zone [] then true else if equal name zone then true else has_suffix name (b'.' ∷ zone)

-- The loop of `filterInZone`.
unfoldable pub keep_in_zone : List ResourceRecord → Bytes → List ResourceRecord
keep_in_zone [] zone = []
keep_in_zone (rr ∷ rrs) zone =
    if in_zone (to_lower rr.name) zone then rr ∷ keep_in_zone rrs zone else keep_in_zone rrs zone

-- `filterInZone`.
unfoldable pub filter_in_zone : List ResourceRecord → Bytes → List ResourceRecord
filter_in_zone rrs zone = if equal zone [] then rrs else keep_in_zone rrs zone

-- The name that one authority record adds to `nsNames`.
abbrev pub ns_name : Result Bytes → List Bytes → List Bytes
ns_name (ok name) names = to_lower name ∷ names
ns_name (err e) names = names

-- `nsNames`: the hosts of the NS records whose data parses.
unfoldable pub ns_names : List ResourceRecord → List Bytes
ns_names [] = []
ns_names (rr ∷ rrs) =
    if rr.rtype == type_ns then ns_name (parse_name rr.rdata 0) (ns_names rrs) else ns_names rrs

-- The loop over the additional section.
unfoldable pub keep_glue : List ResourceRecord → List Bytes → Bytes → List ResourceRecord
keep_glue [] names zone = []
keep_glue (rr ∷ rrs) names zone =
    if rr.rtype == type_opt
    then rr ∷ keep_glue rrs names zone
    else if not (contains names (to_lower rr.name))
    then keep_glue rrs names zone
    else if not (in_zone (to_lower rr.name) zone)
    then keep_glue rrs names zone
    else rr ∷ keep_glue rrs names zone

-- `SanitizeBailiwick`. The filters write into the slices that they read, behind the reader.
unfoldable pub sanitize_bailiwick : Message → Bytes → Message
sanitize_bailiwick msg zone =
    let z = to_lower zone in
    let authority = filter_in_zone msg.authority z in
    record msg {
      answers = filter_in_zone msg.answers z;
      authority = authority;
      additional = keep_glue msg.additional (ns_names authority) z;
    }
