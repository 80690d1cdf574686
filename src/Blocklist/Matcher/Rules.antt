-- ===== src/Blocklist/Matcher/Rules.antt =====
-- `AddWildcard` and `Remove` of blocklist/matcher.go against `Match`.
use labyrinth.Prelude.{
  true, false, ◌||◌, List, [], ◌∷◌, Bytes, ◌≡◌, ◌≢◌, ◌⊎◌, ◌↔◌, inl, inr, if◌then◌else◌, arith, refl,
  sym, ◌∙◌, subst, Bool-cases,
}
use labyrinth.Text.{equal}
use labyrinth.Text.Labels.{equal_iff, equal_refl}
use labyrinth.Text.Zone.{IsUnder}
use labyrinth.Blocklist.Matcher.{
  Matcher, has_key, add_key, delete_key, normalize, match_domain, add_wildcard, remove,
}
use labyrinth.Blocklist.Matcher.Walk.{Covers}
use labyrinth.Blocklist.Matcher.Verdict.{IsExempt, IsListed, match_domain_iff}

has_key-add_key :
    (ks : List Bytes) (a b : Bytes) → has_key (add_key ks a) b ≡ (equal a b || has_key ks b)
unfolding add_key
has_key-add_key ks a b = elim (Bool-cases (has_key ks a)) [
  | inr new ↦ rw new (unfold has_key in refl)
  | inl old ↦ elim (Bool-cases (equal a b)) [
    | inl same ↦
        let there : has_key ks b ≡ true = rw (← (equal_iff a b).0 same) old in
        ground (arith, there, old, same)
    | inr other ↦ ground (arith, old, other)
  ]
]

has_key-delete_key :
    (ks : List Bytes) (a b : Bytes)
    → has_key (delete_key ks a) b ≡ (if equal a b then false else has_key ks b)
unfolding has_key delete_key
has_key-delete_key [] a b = ground arith
has_key-delete_key (k ∷ ks) a b =
    ground (arith, has_key-delete_key ks a b, equal_iff k a, equal_iff a b, equal_iff k b)

-- The name is not the root and no whitelist rule exempts it.
abbrev pub IsOpen : Matcher → Bytes → Type 0
IsOpen m name = (name ≢ []) × (¬ IsExempt m name)

if_root : (d : Bytes) → d ≢ [] → equal d [] ≡ false
if_root d ne = elim (Bool-cases (equal d [])) [
  | inl e ↦ absurd (ne ((equal_iff d []).0 e))
  | inr n ↦ n
]

add_wildcard_named :
    (m : Matcher) (d : Bytes)
    → normalize d ≢ []
    → add_wildcard m d ≡ record m { wildcards = add_key m.wildcards (normalize d) }
unfolding add_wildcard
add_wildcard_named m d ne = ground (arith, if_root (normalize d) ne)

remove_named :
    (m : Matcher) (d : Bytes)
    → normalize d ≢ []
    → remove m d ≡ record m {
      exact = delete_key m.exact (normalize d);
      wildcards = delete_key m.wildcards (normalize d);
    }
unfolding remove
remove_named m d ne = ground (arith, if_root (normalize d) ne)

Covers-add_key :
    (ks : List Bytes) (a name : Bytes)
    → Covers (add_key ks a) name ↔ (IsUnder name a ⊎ Covers ks name)
Covers-add_key ks a name = (to, from)
  where
    to : Covers (add_key ks a) name → IsUnder name a ⊎ Covers ks name
    to (zone, k, u) = elim (Bool-cases (equal a zone)) [
      | inl same ↦ inl (subst (λ z. IsUnder name z) (sym ((equal_iff a zone).0 same)) u)
      | inr other ↦
          let h : (equal a zone || has_key ks zone) ≡ true = sym (has_key-add_key ks a zone) ∙ k in
          inr (zone, ground (arith, h, other), u)
    ]

    from : IsUnder name a ⊎ Covers ks name → Covers (add_key ks a) name
    from (inl u) = (a, has_key-add_key ks a a ∙ ground (arith, equal_refl a), u)
    from (inr (zone, k, u)) = (zone, has_key-add_key ks a zone ∙ ground (arith, k), u)

-- After `AddWildcard`, exactly these names are blocked: those that were, and every name at or below
-- the new rule that is not the root and is not whitelisted.
pub match_domain-add_wildcard :
    (m : Matcher) (rule domain : Bytes)
    → normalize rule ≢ []
    → (match_domain (add_wildcard m rule) domain ≡ true) ↔ (
        (match_domain m domain ≡ true)
        ⊎ (IsOpen m (normalize domain) × IsUnder (normalize domain) (normalize rule)))
match_domain-add_wildcard m rule domain ne = rw (add_wildcard_named m rule ne) (to, from)
  where
    m' : Matcher
    m' = record m { wildcards = add_key m.wildcards (normalize rule) }

    Under : Type 0
    Under = IsOpen m (normalize domain) × IsUnder (normalize domain) (normalize rule)

    blocked :
        IsOpen m (normalize domain) → IsListed m (normalize domain) → match_domain m domain ≡ true
    blocked (n, x) l =
        (match_domain_iff m domain).1 (record { named = n; not_exempt = x; listed = l })

    by_rule :
        IsOpen m (normalize domain)
        → IsListed m' (normalize domain)
        → (match_domain m domain ≡ true) ⊎ Under
    by_rule o (inl e) = inl (blocked o (inl e))
    by_rule o (inr c) =
        elim ((Covers-add_key m.wildcards (normalize rule) (normalize domain)).0 c) [
          | inl u ↦ inr (o, u)
          | inr old ↦ inl (blocked o (inr old))
        ]

    to : match_domain m' domain ≡ true → (match_domain m domain ≡ true) ⊎ Under
    to h = let b = (match_domain_iff m' domain).0 h in by_rule (b.named, b.not_exempt) b.listed

    wider : IsListed m (normalize domain) → IsListed m' (normalize domain)
    wider (inl e) = inl e
    wider (inr c) = inr ((Covers-add_key m.wildcards (normalize rule) (normalize domain)).1 (inr c))

    from : (match_domain m domain ≡ true) ⊎ Under → match_domain m' domain ≡ true
    from (inl h) =
        let b = (match_domain_iff m domain).0 h in
        (match_domain_iff m' domain).1
          (record { named = b.named; not_exempt = b.not_exempt; listed = wider b.listed })
    from (inr (o, u)) = (match_domain_iff m' domain).1 (record {
      named = o.0;
      not_exempt = o.1;
      listed = inr ((Covers-add_key m.wildcards (normalize rule) (normalize domain)).1 (inl u));
    })

-- A rule other than the one for `gone` lists the name.
abbrev pub IsListedBut : Matcher → Bytes → Bytes → Type 0
IsListedBut m gone name =
    ((has_key m.exact name ≡ true) × (gone ≢ name))
    ⊎ ((zone : Bytes) × (has_key m.wildcards zone ≡ true) × (gone ≢ zone) × IsUnder name zone)

deleted :
    (ks : List Bytes) (a b : Bytes)
    → (has_key (delete_key ks a) b ≡ true) ↔ ((has_key ks b ≡ true) × (a ≢ b))
deleted ks a b = rw has_key-delete_key (to, from)
  where
    to : (if equal a b then false else has_key ks b) ≡ true → (has_key ks b ≡ true) × (a ≢ b)
    to h = (ground arith, λ e. cc ((equal_iff a b).1 e, differs))
      where
        differs : equal a b ≡ false
        differs = ground arith

    from : (has_key ks b ≡ true) × (a ≢ b) → (if equal a b then false else has_key ks b) ≡ true
    from (k, ne) = elim (Bool-cases (equal a b)) [
      | inl e ↦ absurd (ne ((equal_iff a b).0 e))
      | inr n ↦ rw n k
    ]

-- After `Remove`, exactly the names are blocked that are not whitelisted and that another rule
-- lists: a parent's wildcard stays in force, and the whitelist is not touched.
pub match_domain-remove :
    (m : Matcher) (gone domain : Bytes)
    → normalize gone ≢ []
    → (match_domain (remove m gone) domain ≡ true)
      ↔ (IsOpen m (normalize domain) × IsListedBut m (normalize gone) (normalize domain))
match_domain-remove m gone domain ne = rw (remove_named m gone ne) (to, from)
  where
    m' : Matcher
    m' = record m {
      exact = delete_key m.exact (normalize gone);
      wildcards = delete_key m.wildcards (normalize gone);
    }

    less : IsListed m' (normalize domain) → IsListedBut m (normalize gone) (normalize domain)
    less (inl e) = inl ((deleted m.exact _ _).0 e)
    less (inr (zone, k, u)) = let (h, n) = (deleted m.wildcards _ zone).0 k in inr (zone, h, n, u)

    to :
        match_domain m' domain ≡ true
        → IsOpen m (normalize domain) × IsListedBut m (normalize gone) (normalize domain)
    to h = let b = (match_domain_iff m' domain).0 h in ((b.named, b.not_exempt), less b.listed)

    stays : IsListedBut m (normalize gone) (normalize domain) → IsListed m' (normalize domain)
    stays (inl h) = inl ((deleted m.exact _ _).1 h)
    stays (inr (zone, k, n, u)) = inr (zone, (deleted m.wildcards _ zone).1 (k, n), u)

    from :
        IsOpen m (normalize domain) × IsListedBut m (normalize gone) (normalize domain)
        → match_domain m' domain ≡ true
    from (o, l) =
        (match_domain_iff m' domain).1 (record { named = o.0; not_exempt = o.1; listed = stays l })
