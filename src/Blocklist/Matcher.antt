-- ===== src/Blocklist/Matcher.antt =====
-- blocklist/matcher.go. A `map[string]struct{}` is the list of its keys.
pub mod Walk
pub mod Verdict
pub mod Rules
use labyrinth.Prelude.{
  ℕ, zero, suc, ◌+◌, Bool, true, false, ◌||◌, List, [], ◌∷◌, Option, none, some, Bytes,
  if◌then◌else◌, length,
}
use labyrinth.Text.{equal, to_lower, trim_suffix, after_dot}

pub record Matcher : Type 0 where
  pub exact : List Bytes
  pub wildcards : List Bytes
  pub whitelist : List Bytes
  pub wildcard_whitelist : List Bytes

-- `NewMatcher`, and the state after `Reset`.
abbrev pub new_matcher : Matcher
new_matcher = record { exact = []; wildcards = []; whitelist = []; wildcard_whitelist = [] }

-- `_, ok := m[key]`.
unfoldable pub has_key : List Bytes → Bytes → Bool
has_key [] key = false
has_key (k ∷ ks) key = equal k key || has_key ks key

-- `m[key] = struct{}{}`.
unfoldable pub add_key : List Bytes → Bytes → List Bytes
add_key ks key = if has_key ks key then ks else key ∷ ks

-- `delete(m, key)`.
unfoldable pub delete_key : List Bytes → Bytes → List Bytes
delete_key [] key = []
delete_key (k ∷ ks) key = if equal k key then delete_key ks key else k ∷ delete_key ks key

-- `normalize`.
unfoldable pub normalize : Bytes → Bytes
normalize domain = trim_suffix (to_lower domain) (b'.' ∷ [])

-- The two loops of `Match`: whether the name or one of its parents is a key. Every round but the
-- last drops a label and its dot, so the length of the name is fuel enough.
unfoldable pub walk_loop : ℕ → List Bytes → Bytes → Bool
walk_loop zero keys d = false
walk_loop (suc fuel) keys d =
    if has_key keys d
    then true
    else elim (after_dot d) [ none ↦ false | some parent ↦ walk_loop fuel keys parent ]

unfoldable pub walk : List Bytes → Bytes → Bool
walk keys domain = walk_loop (length domain + 1) keys domain

-- `Match`, of a name that is normalized.
abbrev pub match_normal : Matcher → Bytes → Bool
match_normal m domain =
    if equal domain []
    then false
    else if has_key m.whitelist domain
    then false
    else if walk m.wildcard_whitelist domain
    then false
    else if has_key m.exact domain
    then true
    else walk m.wildcards domain

-- `Match`.
unfoldable pub match_domain : Matcher → Bytes → Bool
match_domain m domain = match_normal m (normalize domain)

-- A rule for the empty name is dropped.
abbrev pub if_named : Bytes → Matcher → (Bytes → Matcher) → Matcher
if_named domain m f = if equal (normalize domain) [] then m else f (normalize domain)

unfoldable pub add_exact : Matcher → Bytes → Matcher
add_exact m domain = if_named domain m (λ d. record m { exact = add_key m.exact d })

unfoldable pub add_wildcard : Matcher → Bytes → Matcher
add_wildcard m domain = if_named domain m (λ d. record m { wildcards = add_key m.wildcards d })

unfoldable pub add_whitelist : Matcher → Bytes → Matcher
add_whitelist m domain = if_named domain m (λ d. record m { whitelist = add_key m.whitelist d })

unfoldable pub add_wildcard_whitelist : Matcher → Bytes → Matcher
add_wildcard_whitelist m domain =
    if_named domain m (λ d. record m { wildcard_whitelist = add_key m.wildcard_whitelist d })

-- `Remove`.
unfoldable pub remove : Matcher → Bytes → Matcher
remove m domain =
    if_named domain m
      (λ d. record m { exact = delete_key m.exact d; wildcards = delete_key m.wildcards d })

-- `Reset`.
unfoldable pub reset : Matcher → Matcher
reset m = new_matcher

-- `Stats`.
unfoldable pub stats : Matcher → ℕ × ℕ × ℕ
stats m = (length m.exact, length m.wildcards, length m.whitelist + length m.wildcard_whitelist)
