-- ===== src/Blocklist/Matcher/Verdict.antt =====
-- `Match` of blocklist/matcher.go against the labels of names.
use labyrinth.Prelude.{
  Bool, true, false, [], Bytes, ◌≡◌, ◌≢◌, ◌⊎◌, ◌↔◌, inl, inr, arith, refl, Bool-cases,
}
use labyrinth.Text.{equal}
use labyrinth.Text.Labels.{equal_iff}
use labyrinth.Blocklist.Matcher.{Matcher, has_key, normalize, walk, match_domain}
use labyrinth.Blocklist.Matcher.Walk.{Covers, walk_iff}

-- No whitelist rule exempts the name.
abbrev pub IsExempt : Matcher → Bytes → Type 0
IsExempt m name = (has_key m.whitelist name ≡ true) ⊎ Covers m.wildcard_whitelist name

abbrev pub IsListed : Matcher → Bytes → Type 0
IsListed m name = (has_key m.exact name ≡ true) ⊎ Covers m.wildcards name

-- The name is not the root, is not exempt, and is listed.
pub record IsBlocked (m : Matcher) (name : Bytes) : Type 0 where
  pub named : name ≢ []
  pub not_exempt : ¬ IsExempt m name
  pub listed : IsListed m name

match_domain-IsBlocked :
    (m : Matcher) (domain : Bytes) → match_domain m domain ≡ true → IsBlocked m (normalize domain)
unfolding match_domain
match_domain-IsBlocked m domain h =
    let d = normalize domain in
    let not_listed : has_key m.whitelist d ≡ false = ground arith in
    let not_wild : walk m.wildcard_whitelist d ≡ false = ground arith in
    record {
      named = λ e. cc ((equal_iff d []).1 e, root);
      not_exempt = λ x. elim x [
        | inl w ↦ cc (w, not_listed)
        | inr c ↦ cc ((walk_iff m.wildcard_whitelist d).1 c, not_wild)
      ];
      listed = elim (Bool-cases (has_key m.exact d)) [
        | inl e ↦ inl e
        | inr n ↦ inr ((walk_iff m.wildcards d).0 (ground arith))
      ];
    }
  where
    root : equal (normalize domain) [] ≡ false
    root = ground arith

not_true : (b : Bool) → ¬ (b ≡ true) → b ≡ false
not_true true h = absurd (h refl)
not_true false h = refl

IsBlocked-match_domain :
    (m : Matcher) (domain : Bytes) → IsBlocked m (normalize domain) → match_domain m domain ≡ true
unfolding match_domain
IsBlocked-match_domain m domain b =
    let d = normalize domain in
    let r = not_true (equal d []) (λ e. b.named ((equal_iff d []).0 e)) in
    let w = not_true (has_key m.whitelist d) (λ e. b.not_exempt (inl e)) in
    let ww =
      not_true (walk m.wildcard_whitelist d) (λ e. b.not_exempt (inr ((walk_iff _ d).0 e))) in
    elim b.listed [
      | inl e ↦ ground (arith, r, w, ww, e)
      | inr c ↦ ground (arith, r, w, ww, (walk_iff m.wildcards d).1 c)
    ]

-- `Match` answers yes exactly when the normalized name is not the root, neither it nor a parent of
-- it is whitelisted by the rules for that, and it has an exact rule, or it or a parent a wildcard.
pub match_domain_iff :
    (m : Matcher) (domain : Bytes) → (match_domain m domain ≡ true) ↔ IsBlocked m (normalize domain)
match_domain_iff m domain = (match_domain-IsBlocked m domain, IsBlocked-match_domain m domain)
