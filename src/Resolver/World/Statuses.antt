-- ===== src/Resolver/World/Statuses.antt =====
-- The verdicts of a chain of aliases, combined as resolver/resolver.go does.
use labyrinth.Prelude.{◌≡◌, ◌⊎◌, ◌↔◌, arith}
use labyrinth.Resolver.World.{Status, combine_dnssec_status}

-- A chain of two is bogus exactly when one of its ends is. It is secure exactly when both are, or
-- one is and the other has no status; the order of the ends does not matter, nor the grouping of
-- three.
pub combine_dnssec_status_lem :
    (a b c : Status)
    → ((combine_dnssec_status a b ≡ Status.bogus) ↔ ((a ≡ Status.bogus) ⊎ (b ≡ Status.bogus)))
      × ((combine_dnssec_status a b ≡ Status.secure) ↔ (
          ((a ≡ Status.secure) × ((b ≡ Status.secure) ⊎ (b ≡ Status.unset)))
          ⊎ ((a ≡ Status.unset) × (b ≡ Status.secure))))
      × (combine_dnssec_status a b ≡ combine_dnssec_status b a)
      × (combine_dnssec_status (combine_dnssec_status a b) c
          ≡ combine_dnssec_status a (combine_dnssec_status b c))
unfolding combine_dnssec_status
combine_dnssec_status_lem a b c = (ground arith, ground arith, ground arith, ground arith)
