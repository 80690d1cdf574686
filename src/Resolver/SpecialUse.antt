-- ===== src/Resolver/SpecialUse.antt =====
-- resolver/specialuse.go: the names that are never asked of the public name servers.
pub mod Reserved
use labyrinth.Prelude.{ℕ, Bool, ◌||◌, [], ◌∷◌, Option, none, some, Bytes, if◌then◌else◌}
use labyrinth.Text.{equal, to_lower, has_suffix, trim_suffix, text}
use labyrinth.Text.Zone.{at_or_below}
use labyrinth.Dns.Message.{rcode_nx_domain}

-- The three names under which the switch goes on to the name servers.
abbrev pub is_documentation : Bytes → Bool
is_documentation n =
    at_or_below n (text "example.com")
    || at_or_below n (text "example.net")
    || at_or_below n (text "example.org")

-- `specialUseResponse`, of a name in its canonical form. Of the result only the code is set.
abbrev pub special_use_code : Bytes → Option ℕ
special_use_code n =
    if equal n []
    then none
    else if at_or_below n (text "onion")
    then some rcode_nx_domain
    else if at_or_below n (text "invalid")
    then some rcode_nx_domain
    else if at_or_below n (text "test")
    then some rcode_nx_domain
    else if at_or_below n (text "example") || is_documentation n
    then (if is_documentation n then none else some rcode_nx_domain)
    else if at_or_below n (text "local")
    then some rcode_nx_domain
    else if at_or_below n (text "home.arpa")
    then some rcode_nx_domain
    else none

-- `specialUseResponse`.
unfoldable pub special_use_response : Bytes → Option ℕ
special_use_response name = special_use_code (to_lower (trim_suffix name (b'.' ∷ [])))
