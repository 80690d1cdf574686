-- ===== src/Security/Bailiwick/Sanitize.antt =====
-- `SanitizeBailiwick` of security/bailiwick.go, section by section.
use labyrinth.Prelude.{List, Bytes, ◌≡◌, ◌↔◌}
use labyrinth.Prelude.Select.{Member, Member-select, select-select}
use labyrinth.Text.{to_lower}
use labyrinth.Dns.Message.{ResourceRecord, Message}
use labyrinth.Security.Bailiwick.{filter_in_zone, ns_names, keep_glue, sanitize_bailiwick}
use labyrinth.Security.Bailiwick.Kept.{
  Belongs, in_zone_iff, filter_in_zone-select, keep_glue-select,
}
use labyrinth.Security.Bailiwick.Sound.{MayStay, is_kept_iff}

-- One section after the filter of the first two.
filter_in_zone_iff :
    (rrs : List ResourceRecord) (zone : Bytes) (rr : ResourceRecord)
    → Member rr (filter_in_zone rrs zone) ↔ (Member rr rrs × Belongs (to_lower rr.name) zone)
filter_in_zone_iff rrs zone rr = rw filter_in_zone-select (
  λ m. let (n, t) = (Member-select _ rr rrs).0 m in (n, (in_zone_iff _ zone).0 t),
  λ h. (Member-select _ rr rrs).1 (h.0, (in_zone_iff _ zone).1 h.1),
)

keep_glue_iff :
    (rrs authority : List ResourceRecord) (zone : Bytes) (rr : ResourceRecord)
    → Member rr (keep_glue rrs (ns_names authority) zone)
      ↔ (Member rr rrs × MayStay authority zone rr)
keep_glue_iff rrs authority zone rr = rw keep_glue-select (
  λ m. let (n, t) = (Member-select _ rr rrs).0 m in (n, (is_kept_iff authority zone rr).0 t),
  λ h. (Member-select _ rr rrs).1 (h.0, (is_kept_iff authority zone rr).1 h.1),
)

-- A record is in the answer or the authority section afterwards exactly when it was there and its
-- name is at or below the zone, label by label and with both in lower case. It is in the additional
-- section exactly when it was there and is an OPT record, or its name is at or below the zone and
-- is the host of an NS record that the authority section keeps.
pub sanitize_bailiwick_iff :
    (msg : Message) (zone : Bytes) (rr : ResourceRecord)
    → (Member rr (sanitize_bailiwick msg zone).answers
        ↔ (Member rr msg.answers × Belongs (to_lower rr.name) (to_lower zone)))
      × (Member rr (sanitize_bailiwick msg zone).authority
          ↔ (Member rr msg.authority × Belongs (to_lower rr.name) (to_lower zone)))
      × (Member rr (sanitize_bailiwick msg zone).additional ↔ (
          Member rr msg.additional
          × MayStay (sanitize_bailiwick msg zone).authority (to_lower zone) rr))
unfolding sanitize_bailiwick
sanitize_bailiwick_iff msg zone rr = (
  filter_in_zone_iff msg.answers (to_lower zone) rr,
  filter_in_zone_iff msg.authority (to_lower zone) rr,
  keep_glue_iff msg.additional (filter_in_zone msg.authority (to_lower zone)) (to_lower zone) rr,
)

filter_twice :
    (rrs : List ResourceRecord) (zone : Bytes)
    → filter_in_zone (filter_in_zone rrs zone) zone ≡ filter_in_zone rrs zone
filter_twice rrs zone = simp (filter_in_zone-select, select-select)

glue_twice :
    (rrs : List ResourceRecord) (names : List Bytes) (zone : Bytes)
    → keep_glue (keep_glue rrs names zone) names zone ≡ keep_glue rrs names zone
glue_twice rrs names zone = simp (keep_glue-select, select-select)

-- A second pass changes nothing.
pub sanitize_bailiwick-sanitize_bailiwick :
    (msg : Message) (zone : Bytes)
    → sanitize_bailiwick (sanitize_bailiwick msg zone) zone ≡ sanitize_bailiwick msg zone
unfolding sanitize_bailiwick
sanitize_bailiwick-sanitize_bailiwick msg zone = simp (filter_twice, glue_twice)
