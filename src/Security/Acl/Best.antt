-- ===== src/Security/Acl/Best.antt =====
-- `matchZone` of security/acl.go and the zones that hold a name.
use labyrinth.Prelude.{
  ℕ, ◌≤◌, true, List, [], ◌∷◌, Option, none, some, Bytes, ◌≡◌, ◌⊎◌, ◌↔◌, inl, inr, if◌then◌else◌,
  ltb, length, arith, sym, subst, ◌≢◌, Bool-cases,
}
use labyrinth.Prelude.Select.{Member}
use labyrinth.Text.Zone.{IsUnder, at_or_below_iff}
use labyrinth.Security.Acl.{ZoneAcl, Acl, in_zone_or_equal, match_from, match_zone}
use labyrinth.Security.Acl.Zones.{in_zone_or_equal-at_or_below}

module _ {Net : Type 0} where
  -- The rule's zone holds the name.
  abbrev Holds : Bytes → ZoneAcl Net → Type 0
  Holds qname za = in_zone_or_equal qname za.zone ≡ true

  -- The accumulator after one rule.
  abbrev better : Bytes → ZoneAcl Net → Option (ZoneAcl Net) → Option (ZoneAcl Net)
  better qname za best =
      if in_zone_or_equal qname za.zone
      then elim best [
        | none ↦ some za
        | some b ↦ if ltb (length b.zone) (length za.zone) then some za else some b
      ]
      else best

  -- What is known of the accumulator.
  abbrev AtMost : ℕ → Option (ZoneAcl Net) → Type 0
  AtMost n none = Unit {0}
  AtMost n (some b) = length b.zone ≤ n

  abbrev AllShorter : Bytes → ℕ → List (ZoneAcl Net) → Type 0
  AllShorter qname n [] = Unit {0}
  AllShorter qname n (za ∷ zas) = (Holds qname za → length za.zone ≤ n) × AllShorter qname n zas

  record Chosen (qname : Bytes) (zas : List (ZoneAcl Net)) (best : Option (ZoneAcl Net))
      (r : ZoneAcl Net) : Type 0 where
    from : (best ≡ some r) ⊎ (Member r zas × Holds qname r)
    old : AtMost (length r.zone) best
    longest : AllShorter qname (length r.zone) zas

  better-AtMost :
      (qname : Bytes) (za : ZoneAcl Net) (best : Option (ZoneAcl Net)) (n : ℕ)
      → AtMost n (better qname za best)
      → AtMost n best × (Holds qname za → length za.zone ≤ n)
  better-AtMost qname za none n h = (tt, λ i. ground arith)
  better-AtMost qname za (some b) n h = (ground arith, λ i. ground arith)

  better-from :
      (qname : Bytes) (za : ZoneAcl Net) (best : Option (ZoneAcl Net)) {r : ZoneAcl Net}
      → better qname za best ≡ some r
      → (best ≡ some r) ⊎ ((za ≡ r) × Holds qname za)
  better-from qname za none h = elim (Bool-cases (in_zone_or_equal qname za.zone)) [
    | inl i ↦ inr (ground arith, i)
    | inr o ↦ inl (ground arith)
  ]
  better-from qname za (some b) h = elim (Bool-cases (in_zone_or_equal qname za.zone)) [
    | inr o ↦ inl (ground arith)
    | inl i ↦ elim (Bool-cases (ltb (length b.zone) (length za.zone))) [
      | inl longer ↦ inr (ground arith, i)
      | inr other ↦ inl (ground arith)
    ]
  ]

  chosen_from :
      (qname : Bytes) (za : ZoneAcl Net) (zas : List (ZoneAcl Net)) (best : Option (ZoneAcl Net))
      {r : ZoneAcl Net}
      → (better qname za best ≡ some r) ⊎ (Member r zas × Holds qname r)
      → (best ≡ some r) ⊎ (Member r (za ∷ zas) × Holds qname r)
  chosen_from qname za zas best (inr (m, i)) = inr (inr m, i)
  chosen_from qname za zas best (inl e) = elim (better-from qname za best e) [
    | inl b ↦ inl b
    | inr (same, i) ↦ inr (inl same, subst (λ z. Holds qname z) same i)
  ]

  match_from-Chosen :
      (qname : Bytes) (zas : List (ZoneAcl Net)) (best : Option (ZoneAcl Net)) {r : ZoneAcl Net}
      → match_from qname zas best ≡ some r
      → Chosen qname zas best r
  unfolding match_from
  match_from-Chosen qname [] best {r} h = record {
    from = inl h;
    old = rw h (omega arith);
    longest = tt;
  }
  match_from-Chosen qname (za ∷ zas) best {r} h =
      let c = match_from-Chosen qname zas (better qname za best) h in
      let (old, mine) = better-AtMost qname za best (length r.zone) c.old in
      record { from = chosen_from qname za zas best c.from; old = old; longest = (mine, c.longest) }

  AllShorter-Member :
      (qname : Bytes) (n : ℕ) (zas : List (ZoneAcl Net)) (zb : ZoneAcl Net)
      → AllShorter qname n zas
      → Member zb zas
      → Holds qname zb
      → length zb.zone ≤ n
  AllShorter-Member qname n [] zb a m i = absurd m
  AllShorter-Member qname n (za ∷ zas) zb (a, rest) (inl e) i =
      subst (λ z. Holds qname z → length z.zone ≤ n) e a i
  AllShorter-Member qname n (za ∷ zas) zb (a, rest) (inr m) i =
      AllShorter-Member qname n zas zb rest m i

  in_zone_or_equal-IsUnder :
      (qname : Bytes) (za : ZoneAcl Net) → Holds qname za ↔ IsUnder qname za.zone
  in_zone_or_equal-IsUnder qname za =
      rw in_zone_or_equal-at_or_below (at_or_below_iff qname za.zone)

  -- The rule that `matchZone` takes is one of the rules, its zone holds the name label by label, and
  -- no rule with a longer zone does.
  pub match_zone-some :
      (acl : Acl Net) (qname : Bytes) (za : ZoneAcl Net)
      → match_zone acl qname ≡ some za
      → Member za acl.zones
        × IsUnder qname za.zone
        × ((zb : ZoneAcl Net)
            → Member zb acl.zones
            → IsUnder qname zb.zone
            → length zb.zone ≤ length za.zone)
  unfolding match_zone
  match_zone-some acl qname za h =
      let c = match_from-Chosen qname acl.zones none h in
      taken c
        (λ zb m u.
          AllShorter-Member qname _ acl.zones zb c.longest m
            ((in_zone_or_equal-IsUnder qname zb).1 u))
        c.from
    where
      taken :
          Chosen qname acl.zones none za
          → ((zb : ZoneAcl Net)
              → Member zb acl.zones
              → IsUnder qname zb.zone
              → length zb.zone ≤ length za.zone)
          → (none ≡ some za) ⊎ (Member za acl.zones × Holds qname za)
          → Member za acl.zones
            × IsUnder qname za.zone
            × ((zb : ZoneAcl Net)
                → Member zb acl.zones
                → IsUnder qname zb.zone
                → length zb.zone ≤ length za.zone)
      taken c l (inl e) = absurd cc
      taken c l (inr (m, i)) = (m, (in_zone_or_equal-IsUnder qname za).0 i, l)

  better-some :
      (qname : Bytes) (za b : ZoneAcl Net) → (r : ZoneAcl Net) × (better qname za (some b) ≡ some r)
  better-some qname za b = elim (Bool-cases (in_zone_or_equal qname za.zone)) [
    | inr o ↦ (b, ground arith)
    | inl i ↦ elim (Bool-cases (ltb (length b.zone) (length za.zone))) [
      | inl longer ↦ (za, ground arith)
      | inr other ↦ (b, ground arith)
    ]
  ]

  match_from-some :
      (qname : Bytes) (zas : List (ZoneAcl Net)) (b : ZoneAcl Net)
      → match_from qname zas (some b) ≢ none
  unfolding match_from
  match_from-some qname [] b h = cc
  match_from-some qname (za ∷ zas) b h =
      let (r, e) = better-some qname za b in match_from-some qname zas r (rw e at h)

  match_from-none :
      (qname : Bytes) (zas : List (ZoneAcl Net)) (za : ZoneAcl Net)
      → match_from qname zas none ≡ none
      → Member za zas
      → ¬ (Holds qname za)
  unfolding match_from
  match_from-none qname [] za h m i = m
  match_from-none qname (z ∷ zas) za h m i = elim (Bool-cases (in_zone_or_equal qname z.zone)) [
    | inl y ↦ match_from-some qname zas z (rw y at h)
    | inr n ↦ elim m [
      | inl e ↦ cc (subst (λ t. Holds qname t) (sym e) i)
      | inr k ↦ match_from-none qname zas za (rw n at h) k i
    ]
  ]

  -- Where `matchZone` takes no rule, no rule's zone holds the name.
  pub match_zone-none :
      (acl : Acl Net) (qname : Bytes) (za : ZoneAcl Net)
      → match_zone acl qname ≡ none
      → Member za acl.zones
      → ¬ IsUnder qname za.zone
  unfolding match_zone
  match_zone-none acl qname za h m u =
      match_from-none qname acl.zones za h m ((in_zone_or_equal-IsUnder qname za).1 u)
