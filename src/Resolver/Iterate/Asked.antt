-- ===== src/Resolver/Iterate/Asked.antt =====
-- The questions that `resolveIterativeFromInner` of resolver/resolver.go notes in its visited set.
use labyrinth.Prelude.{
  ℕ, zero, suc, ◌+◌, ◌*◌, ◌≤◌, ◌≡◌, Bool, true, false, List, [], ◌∷◌, Option, none, some, Bytes,
  length, ltb, inl, inr, arith,
}
use labyrinth.Prelude.Select.{Member}
use labyrinth.Text.Labels.{equal_iff}
use labyrinth.Security.Bailiwick.{contains}
use labyrinth.Resolver.Infra.{NsEntry}
use labyrinth.Resolver.Delegation.{to_name_server_list}
use labyrinth.Resolver.World.{World, Resolver, Visited, new_visited_set}
use labyrinth.Resolver.Servers.{Lookup}
use labyrinth.Resolver.Iterate.{resolve_from, chain_fuel, resolve_iterative}
use labyrinth.Resolver.Replies.{Again}
use labyrinth.Resolver.Iterate.Rule.{Saves, blocks, saves, Rule}
use labyrinth.Resolver.Iterate.Loop.{rounds-RunHolds}

-- No question stands twice in the list.
abbrev pub IsDistinct : List Bytes → Type 0
IsDistinct [] = Unit {0}
IsDistinct (k ∷ ks) = (¬ Member k ks) × IsDistinct ks

contains-Member : (ks : List Bytes) (key : Bytes) → Member key ks → contains ks key ≡ true
unfolding contains
contains-Member [] key m = absurd m
contains-Member (k ∷ ks) key (inl e) = ground (arith, (equal_iff k key).1 e)
contains-Member (k ∷ ks) key (inr m) = ground (arith, contains-Member ks key m)

-- Distinct questions, and room for some more under a total.
abbrev HasRoom : ℕ → ℕ → Visited → Type 0
HasRoom total more v = IsDistinct v.ns × (length v.ns + more ≤ total)

-- The questions of so many loops.
abbrev budget : ℕ → ℕ → ℕ
budget zero per = 0
budget (suc loops) per = per + budget loops per

module _ (r : Resolver) (lookup : Lookup) (skip : Bool) (total : ℕ) where
  rule :
      (again : Again) (left n : ℕ)
      → ((target : Bytes) (v : Visited) (w : World)
          → HasRoom total left v
          → HasRoom total 0 (again target v w).visited)
      → Rule r lookup again skip
          (λ w. Unit {0})
          (Unit {0})
          (HasRoom total (suc n + left))
          (HasRoom total (n + left))
          (λ final v w. HasRoom total 0 v)
          (λ v w. HasRoom total (n + left) v × Unit {0})
  rule again left n again_room = record {
    moves = λ w w' e h. tt;
    keeps_get = λ w host qtype h. tt;
    keeps_lookup = λ w host qtype h. tt;
    lookup_ends = λ w host qtype h e. tt;
    keeps_store = λ w host qtype class answers authority h. any_store _;
    keeps_negative = λ w name qtype class neg code authority h. any_store _;
    keeps_validated = λ w msg name qtype h. tt;
    stuck_at = λ v w b k. (k.0, omega arith);
    early = λ v w e k h. (k.0, omega arith);
    adds = λ v key fresh k. ((λ m. cc (contains-Member v.ns key m), k.0), omega arith);
    names = λ v target u. u;
    blocked_at = λ v w b u. (u.0, omega arith);
    fails = λ v w e u h. (u.0, omega arith);
    rejects = λ v w u h. (u.0, omega arith);
    answers = λ v w from msg name qtype sound u h. (u.0, omega arith);
    denies = λ v w from code msg name qtype sound u h. (u.0, omega arith);
    aliases =
        λ v w from msg name target qtype rrs sound u h. again_room target v w (u.0, omega arith);
    goes_on = λ v w u h. (u, tt);
  }
    where
      any_store : {w : World} (o : Option _) → Saves (λ w. Unit {0}) (Unit {0}) w o
      any_store none = blocks tt
      any_store (some c) = saves tt

  resolve_from-HasRoom :
      (qtype class fuel : ℕ) (name : Bytes) (cname_depth left : ℕ) (v : Visited)
      (servers : List NsEntry) (zone : Bytes) (w : World)
      → cname_depth + left ≡ r.cfg.max_cname_depth + 1
      → HasRoom total (budget left r.cfg.max_depth) v
      → HasRoom total 0
          (resolve_from r lookup qtype class skip fuel name cname_depth v servers zone w).visited
  unfolding resolve_from
  resolve_from-HasRoom qtype class zero name cname_depth left v servers zone w e h =
      (h.0, omega arith)
  resolve_from-HasRoom qtype class (suc fuel) name cname_depth zero v servers zone w e h =
      let deep : ltb r.cfg.max_cname_depth cname_depth ≡ true = ground arith in
      rw deep (h.0, omega arith)
  resolve_from-HasRoom qtype class (suc fuel) name cname_depth (suc left) v servers zone w e h =
      let fine : ltb r.cfg.max_cname_depth cname_depth ≡ false = ground arith in
      rw fine (
        rounds-RunHolds
          (λ n. rule _ (budget left r.cfg.max_depth) n λ target v w k.
            resolve_from-HasRoom qtype class fuel target (cname_depth + 1) left v
              (to_name_server_list r.root_servers) [] w (omega arith) k)
          (λ v w e k h. (k.0, omega arith)) name qtype class r.cfg.max_depth servers zone none v w
          (h.0, h.1) tt)

budget-mul : (loops per : ℕ) → budget loops per ≡ loops * per
budget-mul zero per = grind arith
budget-mul (suc loops) per = grind (arith, budget-mul loops per)

-- A resolution notes no question twice, which names a server's address, a name and a zone, and notes
-- at most as many as the product of the depth and one more than the length of a chain of aliases.
pub resolve_iterative-IsDistinct :
    (r : Resolver) (lookup : Lookup) (name : Bytes) (qtype class : ℕ) (w : World)
    → let asked = (resolve_iterative r lookup name qtype class w).visited.ns in
      IsDistinct asked × (length asked ≤ (r.cfg.max_cname_depth + 1) * r.cfg.max_depth)
unfolding resolve_iterative
resolve_iterative-IsDistinct r lookup name qtype class w =
    let total = (r.cfg.max_cname_depth + 1) * r.cfg.max_depth in
    let (distinct, few) =
      resolve_from-HasRoom r lookup false total qtype class (chain_fuel r) name 0
        (r.cfg.max_cname_depth + 1) new_visited_set (to_name_server_list r.root_servers) [] w
        (omega arith) (tt, omega (arith, budget-mul (r.cfg.max_cname_depth + 1) r.cfg.max_depth)) in
    (distinct, omega arith)
