-- ===== src/Tests/Rules.antt =====
-- Runs of the blocklist.
use labyrinth.Prelude.{◌≡◌, ◌≢◌, ◌↔◌, refl, true, false, [], ◌∷◌, arith, ap, length}
use labyrinth.Text.{equal, to_lower, has_suffix, trim_suffix, after_dot}
use labyrinth.Blocklist.Matcher.{
  Matcher, new_matcher, has_key, add_key, delete_key, normalize, walk_loop, walk, match_domain,
  add_exact, add_wildcard, add_whitelist, add_wildcard_whitelist, remove,
}
use labyrinth.Blocklist.Matcher.Verdict.{IsBlocked, match_domain_iff}
use labyrinth.Tests.Names.{text}

program : Unit {0}
unfolding equal to_lower has_suffix trim_suffix after_dot has_key add_key delete_key normalize
    walk_loop walk match_domain add_exact add_wildcard add_whitelist add_wildcard_whitelist remove
program = tt

abbrev listed : Matcher
listed = record {
  exact = text "one.org" ∷ [];
  wildcards = text "ads.com" ∷ [];
  whitelist = text "good.ads.com" ∷ [];
  wildcard_whitelist = [];
}

listed_run :
    add_whitelist
      (add_wildcard (add_exact new_matcher (text "ONE.org.")) (text "ads.com"))
      (text "good.ads.com")
    ≡ listed
unfolding program
listed_run = refl

blocked_run : match_domain listed (text "X.Ads.Com.") ≡ true
unfolding program
blocked_run = refl

whitelisted_run : match_domain listed (text "good.ads.com") ≡ false
unfolding program
whitelisted_run = refl

below_exact_run : match_domain listed (text "sub.one.org") ≡ false
unfolding program
below_exact_run = refl

match_domain_iff_example :
    (match_domain listed (text "X.ads.com") ≡ true)
    ↔ IsBlocked listed (normalize (text "X.ads.com"))
match_domain_iff_example = match_domain_iff listed (text "X.ads.com")

named : normalize (text "ads.com") ≢ []
unfolding program
named e = absurd (omega (arith, ap length e))
