-- ===== src/Security/Bailiwick/Kept.antt =====
-- `InZone` and the filters of security/bailiwick.go as selections.
use labyrinth.Prelude.{
  Bool, true, ◌||◌, ◌&&◌, List, [], ◌∷◌, Bytes, ◌==◌, ◌≡◌, ◌≢◌, ◌⊎◌, ◌↔◌, inl, inr, arith,
  Bool-cases, refl, ap, sym, ◌∙◌,
}
use labyrinth.Prelude.Select.{select}
use labyrinth.Text.{equal, to_lower}
use labyrinth.Text.Labels.{equal_iff}
use labyrinth.Text.Zone.{IsUnder, at_or_below, at_or_below_iff}
use labyrinth.Dns.Message.{ResourceRecord, type_opt}
use labyrinth.Security.Bailiwick.{contains, in_zone, keep_in_zone, filter_in_zone, keep_glue}

in_zone-at_or_below :
    (name zone : Bytes) → in_zone name zone ≡ (equal zone [] || at_or_below name zone)
unfolding in_zone
in_zone-at_or_below name zone = ground arith

-- The name is at or below the zone, label by label, and the root holds every name.
abbrev pub Belongs : Bytes → Bytes → Type 0
Belongs name zone = (zone ≡ []) ⊎ IsUnder name zone

-- A zone other than the root holds what stands at or below it.
pub Belongs-below : (name zone : Bytes) → zone ≢ [] → Belongs name zone → IsUnder name zone
Belongs-below name zone named (inl root) = absurd (named root)
Belongs-below name zone named (inr u) = u

-- `InZone` decides whether the labels of the name end in those of the zone; the root holds all.
pub in_zone_iff : (name zone : Bytes) → (in_zone name zone ≡ true) ↔ Belongs name zone
in_zone_iff name zone = rw in_zone-at_or_below (to, from)
  where
    to : (equal zone [] || at_or_below name zone) ≡ true → Belongs name zone
    to h = elim (Bool-cases (equal zone [])) [
      | inl e ↦ inl ((equal_iff zone []).0 e)
      | inr n ↦ inr ((at_or_below_iff name zone).0 (rw n at h))
    ]

    from : Belongs name zone → (equal zone [] || at_or_below name zone) ≡ true
    from (inl e) = rw (← e) (rw ((equal_iff zone zone).1 refl))
    from (inr u) = rw ((at_or_below_iff name zone).1 u) (ground arith)

keep_in_zone-select :
    (rrs : List ResourceRecord) (zone : Bytes)
    → keep_in_zone rrs zone ≡ select (λ rr. in_zone (to_lower rr.name) zone) rrs
unfolding keep_in_zone select
keep_in_zone-select [] zone = refl
keep_in_zone-select (rr ∷ rrs) zone = rw (keep_in_zone-select rrs zone)

select-all :
    (test : ResourceRecord → Bool) (rrs : List ResourceRecord)
    → ((rr : ResourceRecord) → test rr ≡ true)
    → select test rrs ≡ rrs
unfolding select
select-all test [] h = refl
select-all test (rr ∷ rrs) h = rw (h rr) (ap (◌∷◌ rr) (select-all test rrs h))

-- With the root as the zone every name is in it, so the shortcut of `filterInZone` changes nothing.
pub filter_in_zone-select :
    (rrs : List ResourceRecord) (zone : Bytes)
    → filter_in_zone rrs zone ≡ select (λ rr. in_zone (to_lower rr.name) zone) rrs
unfolding filter_in_zone
filter_in_zone-select rrs zone = elim (Bool-cases (equal zone [])) [
  | inl root ↦
      rw root (sym (select-all _ rrs (λ rr. in_zone-at_or_below (to_lower rr.name) zone ∙ rw root)))
  | inr n ↦ rw n (keep_in_zone-select rrs zone)
]

-- An OPT record, or glue: the name is that of a kept name server, and in the zone.
abbrev pub is_kept : List Bytes → Bytes → ResourceRecord → Bool
is_kept names zone rr =
    rr.rtype == type_opt || (contains names (to_lower rr.name) && in_zone (to_lower rr.name) zone)

pub keep_glue-select :
    (rrs : List ResourceRecord) (names : List Bytes) (zone : Bytes)
    → keep_glue rrs names zone ≡ select (is_kept names zone) rrs
unfolding keep_glue select
keep_glue-select [] names zone = refl
keep_glue-select (rr ∷ rrs) names zone = ground (arith, keep_glue-select rrs names zone)
