-- ===== src/Resolver/World.antt =====
-- The state and the results of resolver/resolver.go: what a resolution changes, what it returns, and
-- the verdicts of dnssec/validator.go that it combines.
pub mod Statuses
use labyrinth.Prelude.{
  ℕ, Bool, true, false, ◌||◌, ◌&&◌, List, [], ◌∷◌, Option, none, some, Bytes, if◌then◌else◌,
}
use labyrinth.Text.{equal, to_lower}
use labyrinth.Dns.Message.{ResourceRecord, Message, rcode_serv_fail}
use labyrinth.Security.Bailiwick.{contains}
use labyrinth.Cache.Store.{Cache}
use labyrinth.Resolver.Infra.{InfraCache}
use labyrinth.Resolver.Upstream.{Failure, Outside, Config}
use labyrinth.Resolver.Delegation.{GoLib, NameServer}

-- What a resolution changes: the two caches, and the number of exchanges with the outside world.
pub record World : Type 0 where
  pub cache : Cache
  pub infra : InfraCache
  pub clock : ℕ

-- `ValidationResult`.
pub data Verdict : Type 0 where
  secure insecure bogus indeterminate : Verdict

-- `DNSSECStatus`: the empty string, the three verdicts, and "local-deny", by which a local zone asks
-- its caller to drop the query.
pub data Status : Type 0 where
  unset secure insecure bogus local_deny : Status

-- `ResolveResult`, less the client subnet.
pub record ResolveResult : Type 0 where
  pub answers : List ResourceRecord
  pub authority : List ResourceRecord
  pub additional : List ResourceRecord
  pub rcode : ℕ
  pub status : Status
  pub error : Option Failure

-- `ValidateResponse`: it may ask and store, so it changes the state.
abbrev pub Validator : Type 0
Validator = Message → Bytes → ℕ → World → Verdict × World

-- `Resolver`: what a resolution only reads.
pub record Resolver : Type 0 where
  pub out : Outside
  pub cfg : Config
  pub lib : GoLib
  pub root_servers : List NameServer
  pub dnssec_validator : Option Validator

-- How a resolution ends: with a result, with an error, or not at all.
pub data Final : Type 0 where
  done : ResolveResult → Final
  gave_up : Failure → Final
  endless : Final

-- `verdictToStatus`.
abbrev pub verdict_to_status : Verdict → Status
verdict_to_status Verdict.secure = Status.secure
verdict_to_status Verdict.bogus = Status.bogus
verdict_to_status Verdict.insecure = Status.insecure
verdict_to_status Verdict.indeterminate = Status.insecure

abbrev pub is_unset : Status → Bool
is_unset Status.unset = true
is_unset Status.secure = false
is_unset Status.insecure = false
is_unset Status.bogus = false
is_unset Status.local_deny = false

abbrev pub is_secure : Status → Bool
is_secure Status.secure = true
is_secure Status.unset = false
is_secure Status.insecure = false
is_secure Status.bogus = false
is_secure Status.local_deny = false

abbrev pub is_bogus : Status → Bool
is_bogus Status.bogus = true
is_bogus Status.secure = false
is_bogus Status.unset = false
is_bogus Status.insecure = false
is_bogus Status.local_deny = false

-- `combineDNSSECStatus`.
unfoldable pub combine_dnssec_status : Status → Status → Status
combine_dnssec_status a b =
    if is_bogus a || is_bogus b
    then Status.bogus
    else if is_secure a && is_secure b
    then Status.secure
    else if is_unset a
    then b
    else if is_unset b
    then a
    else Status.insecure

-- The verdict of the validator, if there is one and it is not to be skipped.
abbrev pub validated :
    Option Validator → Bool → Message → Bytes → ℕ → World → Option Verdict × World
validated none skip msg name qtype w = (none, w)
validated (some validate) true msg name qtype w = (none, w)
validated (some validate) false msg name qtype w =
    let (verdict, w') = validate msg name qtype w in (some verdict, w')

-- The status of a result that was validated: that of `validateDenialIfEnabled`, and of an answer.
abbrev pub status_of : Option Verdict → Status
status_of none = Status.unset
status_of (some verdict) = verdict_to_status verdict

-- The verdict on an alias, which is `Insecure` where none is sought.
abbrev pub verdict_or_insecure : Option Verdict → Verdict
verdict_or_insecure none = Verdict.insecure
verdict_or_insecure (some verdict) = verdict

-- `&ResolveResult{RCODE: …, DNSSECStatus: …, Error: …}`.
abbrev pub without_records : ℕ → Status → Option Failure → ResolveResult
without_records code status error = record {
  answers = [];
  authority = [];
  additional = [];
  rcode = code;
  status = status;
  error = error;
}

abbrev pub serv_fail_result : Option Failure → ResolveResult
serv_fail_result error = without_records rcode_serv_fail Status.unset error

abbrev pub bogus_result : ResolveResult
bogus_result = without_records rcode_serv_fail Status.bogus none

-- `visitedSet`.
pub record Visited : Type 0 where
  pub ns : List Bytes
  pub cname : List Bytes

-- `newVisitedSet`.
abbrev pub new_visited_set : Visited
new_visited_set = record { ns = []; cname = [] }

-- `Has` and `Add`, and `HasCNAME` and `AddCNAME`.
abbrev pub has : Visited → Bytes → Bool
has v key = contains v.ns key

abbrev pub add : Visited → Bytes → Visited
add v key = record v { ns = key ∷ v.ns }

abbrev pub has_cname : Visited → Bytes → Bool
has_cname v name = contains v.cname (to_lower name)

abbrev pub add_cname : Visited → Bytes → Visited
add_cname v name = record v { cname = to_lower name ∷ v.cname }
