-- ===== src/Security/Acl.antt =====
-- security/acl.go. What an address is, how Go's `net` reads addresses and networks from text, and
-- what a network contains are parameters.
pub mod Rules
pub mod Zones
pub mod Best
use labyrinth.Prelude.{
  ℕ, ◌+◌, ◌-◌, Bool, true, false, ◌||◌, ◌&&◌, List, [], ◌∷◌, ◌++◌, Option, none, some, Bytes,
  if◌then◌else◌, ltb, ◌==◌, length, get_or,
}
use labyrinth.Text.{equal, to_lower, has_suffix, trim_suffix}

-- Go's `net`: `ParseIP`, `ParseCIDR` and `IPNet.Contains`.
pub record NetLib (Ip Net : Type 0) : Type 0 where
  pub parse_ip : Bytes → Option Ip
  pub parse_cidr : Bytes → Option Net
  pub contains_ip : Net → Ip → Bool

-- `ZoneACL`.
pub record ZoneAcl (Net : Type 0) : Type 0 where
  pub zone : Bytes
  pub allow_nets : List Net
  pub deny_nets : List Net

-- `ACL`.
pub record Acl (Net : Type 0) : Type 0 where
  pub allow : List Net
  pub deny : List Net
  pub zones : List (ZoneAcl Net)

-- `inZoneOrEqual`.
unfoldable pub in_zone_or_equal : Bytes → Bytes → Bool
in_zone_or_equal qname zone =
    if equal qname zone
    then true
    else ltb (length zone) (length qname)
      && get_or qname (length qname - length zone - 1) 0 == b'.'
      && has_suffix qname zone

-- `strings.ToLower(strings.TrimSuffix(name, "."))`.
unfoldable pub canonical : Bytes → Bytes
canonical name = to_lower (trim_suffix name (b'.' ∷ []))

module _ {Net : Type 0} where
  -- The loop of `matchZone`: `bestLen` is -1 where there is no best zone yet.
  unfoldable pub match_from :
      Bytes → List (ZoneAcl Net) → Option (ZoneAcl Net) → Option (ZoneAcl Net)
  match_from qname [] best = best
  match_from qname (za ∷ zas) best = match_from qname zas (
      if in_zone_or_equal qname za.zone
      then elim best [
        | none ↦ some za
        | some b ↦ if ltb (length b.zone) (length za.zone) then some za else some b
      ]
      else best)

  -- `matchZone`.
  unfoldable pub match_zone : Acl Net → Bytes → Option (ZoneAcl Net)
  match_zone acl qname = match_from qname acl.zones none

module _ {Ip Net : Type 0} (lib : NetLib Ip Net) where
  open lib use {parse_ip, parse_cidr, contains_ip}

  -- A loop that stops at the first network which holds the address.
  unfoldable pub any_contains : List Net → Ip → Bool
  any_contains [] ip = false
  any_contains (n ∷ ns) ip = if contains_ip n ip then true else any_contains ns ip

  -- `len(nets) == 0`.
  abbrev pub is_empty : List Net → Bool
  is_empty [] = true
  is_empty (n ∷ ns) = false

  -- `checkNets`.
  unfoldable pub check_nets : Ip → List Net → List Net → Bool
  check_nets ip allow deny =
      if any_contains deny ip then false else if is_empty allow then true else any_contains allow ip

  -- The loops of `NewACL` and `AddZoneACL`: the first network that does not parse is an error.
  unfoldable pub parse_nets : List Bytes → Option (List Net)
  parse_nets [] = some []
  parse_nets (c ∷ cs) = elim (parse_cidr c) [
    | none ↦ none
    | some n ↦ elim (parse_nets cs) [ none ↦ none | some ns ↦ some (n ∷ ns) ]
  ]

  -- `NewACL`.
  unfoldable pub new_acl : List Bytes → List Bytes → Option (Acl Net)
  new_acl allow deny = elim (parse_nets allow) [
    | none ↦ none
    | some a ↦ elim (parse_nets deny) [
      | none ↦ none
      | some d ↦ some (record { allow = a; deny = d; zones = [] })
    ]
  ]

  -- `AddZoneACL`: on an error the rules stay as they are.
  unfoldable pub add_zone_acl : Acl Net → Bytes → List Bytes → List Bytes → Option (Acl Net)
  add_zone_acl acl zone allow deny = elim (parse_nets allow) [
    | none ↦ none
    | some a ↦ elim (parse_nets deny) [
      | none ↦ none
      | some d ↦ some (record acl {
        zones =
            acl.zones ++ ((record { zone = canonical zone; allow_nets = a; deny_nets = d }) ∷ []);
      })
    ]
  ]

  -- `Check`.
  unfoldable pub check : Acl Net → Bytes → Bool
  check acl ip_str = elim (parse_ip ip_str) [
    | none ↦ false
    | some ip ↦ check_nets ip acl.allow acl.deny
  ]

  -- `CheckWithZone`.
  unfoldable pub check_with_zone : Acl Net → Bytes → Bytes → Bool
  check_with_zone acl ip_str qname = elim (parse_ip ip_str) [
    | none ↦ false
    | some ip ↦ elim (match_zone acl (canonical qname)) [
      | some za ↦ check_nets ip za.allow_nets za.deny_nets
      | none ↦ check_nets ip acl.allow acl.deny
    ]
  ]
