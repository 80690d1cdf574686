-- ===== src/Resolver/Iterate/Verdicts.antt =====
-- What the verdicts of the validator make of the results of `resolveIterativeFromInner` of
-- resolver/resolver.go.
use labyrinth.Prelude.{
  ℕ, zero, suc, ◌+◌, ◌≡◌, ◌≢◌, Bool, true, false, List, [], ◌++◌, Option, none, some, Bytes, refl,
  ltb, inl, inr, arith, Bool-cases,
}
use labyrinth.Dns.Message.{ResourceRecord, Message, rcode_serv_fail}
use labyrinth.Resolver.Infra.{NsEntry}
use labyrinth.Resolver.Upstream.{Failure}
use labyrinth.Resolver.Delegation.{to_name_server_list}
use labyrinth.Resolver.World.{
  World, Verdict, Status, ResolveResult, Validator, Resolver, Final, done, gave_up, endless,
  verdict_to_status, is_bogus, combine_dnssec_status, validated, status_of, verdict_or_insecure,
  serv_fail_result, bogus_result, Visited,
}
use labyrinth.Resolver.World.Statuses.{combine_dnssec_status_lem}
use labyrinth.Resolver.Servers.{Lookup}
use labyrinth.Resolver.Iterate.{resolve_from}
use labyrinth.Resolver.Replies.{Again, behind_alias}
use labyrinth.Resolver.Iterate.Rule.{answered, denied, Saves, blocks, saves, Rule}
use labyrinth.Resolver.Iterate.Loop.{rounds-RunHolds}

-- The property holds of the result, if there is one.
abbrev pub Holds : (ResolveResult → Type 0) → Final → Type 0
Holds P (done result) = P result
Holds P (gave_up e) = Unit {0}
Holds P endless = Unit {0}

abbrev aliased : List ResourceRecord → Verdict → ResolveResult → ResolveResult
aliased rrs verdict result = record result {
  answers = rrs ++ result.answers;
  status = combine_dnssec_status (verdict_to_status verdict) result.status;
}

-- What a property of the results has to be kept by.
record IsKept (r : Resolver) (skip : Bool) (P : ResolveResult → Type 0) : Type 0 where
  fails : (e : Option Failure) → P (serv_fail_result e)
  rejects : P bogus_result
  answers :
      (from : World) (msg : Message) (name : Bytes) (qtype : ℕ)
      → let found = (validated r.dnssec_validator skip msg name qtype from).0 in
        is_bogus (status_of found) ≡ false → P (answered msg (status_of found))
  denies :
      (from : World) (code : ℕ) (msg : Message) (name : Bytes) (qtype : ℕ)
      → let found = (validated r.dnssec_validator skip msg name qtype from).0 in
        is_bogus (status_of found) ≡ false → P (denied msg code (status_of found))
  aliases :
      (from : World) (msg : Message) (name : Bytes) (qtype : ℕ)
      → let verdict =
          verdict_or_insecure (validated r.dnssec_validator skip msg name qtype from).0 in
        is_bogus (verdict_to_status verdict) ≡ false
        → (rrs : List ResourceRecord) (result : ResolveResult) → P result
        → P (aliased rrs verdict result)

behind_alias-Holds :
    (P : ResolveResult → Type 0) (rrs : List ResourceRecord) (verdict : Verdict) (final : Final)
    → ((result : ResolveResult) → P result → P (aliased rrs verdict result))
    → Holds P final
    → Holds P (behind_alias rrs verdict final)
behind_alias-Holds P rrs verdict (done result) h k = h result k
behind_alias-Holds P rrs verdict (gave_up e) h k = tt
behind_alias-Holds P rrs verdict endless h k = tt

module _ (r : Resolver) (lookup : Lookup) (skip : Bool) (P : ResolveResult → Type 0)
    (kept : IsKept r skip P) where
  rule :
      (again : Again)
      → ((target : Bytes) (v : Visited) (w : World) → Holds P (again target v w).final)
      → Rule r lookup again skip
          (λ w. Unit {0})
          (Unit {0})
          (λ v. Unit {0})
          (λ v. Unit {0})
          (λ final v w. Holds P final)
          (λ v w. Unit {0} × Unit {0})
  rule again again_holds = record {
    moves = λ w w' e h. tt;
    keeps_get = λ w host qtype h. tt;
    keeps_lookup = λ w host qtype h. tt;
    lookup_ends = λ w host qtype h e. tt;
    keeps_store = λ w host qtype class answers authority h. any_store _;
    keeps_negative = λ w name qtype class neg code authority h. any_store _;
    keeps_validated = λ w msg name qtype h. tt;
    stuck_at = λ v w b k. tt;
    early = λ v w e k h. kept.fails e;
    adds = λ v key fresh k. tt;
    names = λ v target u. tt;
    blocked_at = λ v w b u. tt;
    fails = λ v w e u h. kept.fails e;
    rejects = λ v w u h. kept.rejects;
    answers = λ v w from msg name qtype sound u h. kept.answers from msg name qtype sound;
    denies = λ v w from code msg name qtype sound u h. kept.denies from code msg name qtype sound;
    aliases = λ v w from msg name target qtype rrs sound u h.
        behind_alias-Holds P rrs
          (verdict_or_insecure (validated r.dnssec_validator skip msg name qtype from).0)
          (again target v w).final (kept.aliases from msg name qtype sound rrs)
          (again_holds target v w);
    goes_on = λ v w u h. (tt, tt);
  }
    where
      any_store : {w : World} (o : Option _) → Saves (λ w. Unit {0}) (Unit {0}) w o
      any_store none = blocks tt
      any_store (some c) = saves tt

  resolve_from-Holds :
      (qtype class fuel : ℕ) (name : Bytes) (cname_depth : ℕ) (v : Visited) (servers : List NsEntry)
      (zone : Bytes) (w : World)
      → Holds P
          (resolve_from r lookup qtype class skip fuel name cname_depth v servers zone w).final
  unfolding resolve_from
  resolve_from-Holds qtype class zero name cname_depth v servers zone w = tt
  resolve_from-Holds qtype class (suc fuel) name cname_depth v servers zone w =
      elim (Bool-cases (ltb r.cfg.max_cname_depth cname_depth)) [
        | inl deep ↦ rw deep tt
        | inr fine ↦ rw fine (
            rounds-RunHolds
              (λ n. rule _ λ target v w.
                resolve_from-Holds qtype class fuel target (cname_depth + 1) v
                  (to_name_server_list r.root_servers) [] w)
              (λ v w e h k. kept.fails e) name qtype class r.cfg.max_depth servers zone none v w tt
              tt)
      ]

-- A bogus status comes with SERVFAIL and no error, and an error with SERVFAIL.
abbrev pub IsGuarded : ResolveResult → Type 0
IsGuarded result =
    (result.status ≡ Status.bogus → (result.rcode ≡ rcode_serv_fail) × (result.error ≡ none))
    × ((e : Failure) → result.error ≡ some e → result.rcode ≡ rcode_serv_fail)

not_bogus : (s : Status) → is_bogus s ≡ false → s ≢ Status.bogus
not_bogus Status.bogus h e = cc
not_bogus Status.secure h e = cc
not_bogus Status.insecure h e = cc
not_bogus Status.unset h e = cc
not_bogus Status.local_deny h e = cc

combined_bogus :
    (a b : Status)
    → is_bogus a ≡ false
    → combine_dnssec_status a b ≡ Status.bogus
    → b ≡ Status.bogus
combined_bogus a b h e = elim ((combine_dnssec_status_lem a b b).0.0 e) [
  | inl first ↦ absurd (not_bogus a h first)
  | inr second ↦ second
]

-- Whatever the servers, the cache and the validator answer, a result with the status "bogus" has the
-- code SERVFAIL and no error, and a result with an error has the code SERVFAIL.
pub resolve_from-IsGuarded :
    (r : Resolver) (lookup : Lookup) (skip : Bool) (qtype class fuel : ℕ) (name : Bytes)
    (cname_depth : ℕ) (v : Visited) (servers : List NsEntry) (zone : Bytes) (w : World)
    → Holds IsGuarded
        (resolve_from r lookup qtype class skip fuel name cname_depth v servers zone w).final
resolve_from-IsGuarded r lookup skip = resolve_from-Holds r lookup skip IsGuarded (record {
  fails = λ e. (λ b. cc, λ f h. refl);
  rejects = (λ b. (refl, refl), λ f h. refl);
  answers = λ from msg name qtype sound. (λ b. absurd (not_bogus _ sound b), λ f h. cc);
  denies = λ from code msg name qtype sound. (λ b. absurd (not_bogus _ sound b), λ f h. cc);
  aliases = λ from msg name qtype sound rrs result h.
      (λ b. h.0 (combined_bogus _ result.status sound b), h.1);
})

-- The validator calls nothing secure.
abbrev pub NeverSecure : Option Validator → Type 0
NeverSecure none = Unit {0}
NeverSecure (some validate) =
    (msg : Message) (name : Bytes) (qtype : ℕ) (w : World)
    → (validate msg name qtype w).0 ≢ Verdict.secure

verdict_to_status-secure :
    (verdict : Verdict) → verdict_to_status verdict ≡ Status.secure → verdict ≡ Verdict.secure
verdict_to_status-secure verdict h = ground arith

not_validated_secure :
    (o : Option Validator) (skip : Bool) (msg : Message) (name : Bytes) (qtype : ℕ) (w : World)
    → NeverSecure o
    → (status_of (validated o skip msg name qtype w).0 ≢ Status.secure)
      × (verdict_to_status (verdict_or_insecure (validated o skip msg name qtype w).0)
          ≢ Status.secure)
not_validated_secure none skip msg name qtype w n = (λ e. cc, λ e. cc)
not_validated_secure (some validate) true msg name qtype w n = (λ e. cc, λ e. cc)
not_validated_secure (some validate) false msg name qtype w n =
    let never = λ (e : verdict_to_status (validate msg name qtype w).0 ≡ Status.secure).
      n msg name qtype w (verdict_to_status-secure _ e) in
    (never, never)

combined_secure :
    (a b : Status)
    → a ≢ Status.secure
    → b ≢ Status.secure
    → combine_dnssec_status a b ≢ Status.secure
combined_secure a b h k e = elim ((combine_dnssec_status_lem a b b).1.0 e) [
  | inl (first, _) ↦ h first
  | inr (_, second) ↦ k second
]

-- If the validator calls nothing secure, or there is none, no result has the status "secure".
pub resolve_from-NeverSecure :
    (r : Resolver) (lookup : Lookup) (skip : Bool) (qtype class fuel : ℕ) (name : Bytes)
    (cname_depth : ℕ) (v : Visited) (servers : List NsEntry) (zone : Bytes) (w : World)
    → NeverSecure r.dnssec_validator
    → Holds
        (λ result. result.status ≢ Status.secure)
        (resolve_from r lookup qtype class skip fuel name cname_depth v servers zone w).final
resolve_from-NeverSecure r lookup skip qtype class fuel name cname_depth v servers zone w never =
    let not_secure = λ (msg : Message) (name : Bytes) (qtype : ℕ) (w : World).
      not_validated_secure r.dnssec_validator skip msg name qtype w never in
    resolve_from-Holds r lookup skip (λ result. result.status ≢ Status.secure)
      (record {
        fails = λ e s. cc;
        rejects = λ s. cc;
        answers = λ from msg name qtype sound. (not_secure msg name qtype from).0;
        denies = λ from code msg name qtype sound. (not_secure msg name qtype from).0;
        aliases = λ from msg name qtype sound rrs result h.
            combined_secure _ result.status (not_secure msg name qtype from).1 h;
      })
      qtype class fuel name cname_depth v servers zone w

-- SERVFAIL, with no record in any section.
abbrev pub IsEmptyFailure : ResolveResult → Type 0
IsEmptyFailure result =
    (result.rcode ≡ rcode_serv_fail)
    × (result.answers ≡ [])
    × (result.authority ≡ [])
    × (result.additional ≡ [])

-- There is a validator, and it calls everything bogus.
abbrev pub AlwaysBogus : Option Validator → Type 0
AlwaysBogus none = ⊥
AlwaysBogus (some validate) =
    (msg : Message) (name : Bytes) (qtype : ℕ) (w : World)
    → (validate msg name qtype w).0 ≡ Verdict.bogus

validated_bogus :
    (o : Option Validator) (msg : Message) (name : Bytes) (qtype : ℕ) (w : World)
    → AlwaysBogus o
    → let found = (validated o false msg name qtype w).0 in
      (is_bogus (status_of found) ≡ true)
      × (is_bogus (verdict_to_status (verdict_or_insecure found)) ≡ true)
validated_bogus none msg name qtype w all = absurd all
validated_bogus (some validate) msg name qtype w all =
    let e = all msg name qtype w in (rw e refl, rw e refl)

-- If the validator is on and calls every reply bogus, every result is SERVFAIL without records.
pub resolve_from-IsEmptyFailure :
    (r : Resolver) (lookup : Lookup) (qtype class fuel : ℕ) (name : Bytes) (cname_depth : ℕ)
    (v : Visited) (servers : List NsEntry) (zone : Bytes) (w : World)
    → AlwaysBogus r.dnssec_validator
    → Holds IsEmptyFailure
        (resolve_from r lookup qtype class false fuel name cname_depth v servers zone w).final
resolve_from-IsEmptyFailure r lookup qtype class fuel name cname_depth v servers zone w all =
    let found = λ (msg : Message) (name : Bytes) (qtype : ℕ) (w : World).
      validated_bogus r.dnssec_validator msg name qtype w all in
    resolve_from-Holds r lookup false IsEmptyFailure
      (record {
        fails = λ e. (refl, refl, refl, refl);
        rejects = (refl, refl, refl, refl);
        answers = λ from msg name qtype sound. absurd (cc (found msg name qtype from).0);
        denies = λ from code msg name qtype sound. absurd (cc (found msg name qtype from).0);
        aliases =
            λ from msg name qtype sound rrs result h. absurd (cc (found msg name qtype from).1);
      })
      qtype class fuel name cname_depth v servers zone w
