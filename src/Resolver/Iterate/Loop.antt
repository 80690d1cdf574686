-- ===== src/Resolver/Iterate/Loop.antt =====
-- The loop of `resolveIterativeFromInner` of resolver/resolver.go under the rule for one round.
use labyrinth.Prelude.{ℕ, zero, suc, Bool, List, Option, Bytes}
use labyrinth.Resolver.Infra.{NsEntry}
use labyrinth.Resolver.Upstream.{Failure}
use labyrinth.Resolver.World.{World, Resolver, Final, done, serv_fail_result, Visited}
use labyrinth.Resolver.Servers.{Lookup}
use labyrinth.Resolver.Iterate.{step, next_round, rounds}
use labyrinth.Resolver.Replies.{Run, Step, stop, go_on, Again}
use labyrinth.Resolver.Iterate.Rule.{StepHolds, stops, goes, Rule}
use labyrinth.Resolver.Iterate.Round.{step-StepHolds}

abbrev pub RunHolds : (Final → Visited → World → Type 0) → Run → Type 0
RunHolds S run = S run.final run.visited run.world

module _ {r : Resolver} {lookup : Lookup} {again : Again} {skip : Bool} {W : World → Type 0}
    {Blocks : Type 0} {V U : ℕ → Visited → Type 0} {S : Final → Visited → World → Type 0}
    (rule : (n : ℕ) → Rule r lookup again skip W Blocks (V (suc n)) (U n) S (λ v w. V n v × W w))
    (runs_out : (v : Visited) (w : World) (e : Option Failure)
      → V zero v
      → W w
      → S (done (serv_fail_result e)) v w)
    (name : Bytes) (qtype class : ℕ) where
  next_round-RunHolds :
      (n : ℕ) (s : Step)
      → StepHolds S (λ v w. V n v × W w) s
      → ((servers : List NsEntry) (zone : Bytes) (last : Option Failure) (v : Visited) (w : World)
          → V n v
          → W w
          → RunHolds S (rounds r lookup again name qtype class skip n servers zone last v w))
      → RunHolds S (
          next_round r lookup again name qtype class skip
            (rounds r lookup again name qtype class skip n)
            s)
  next_round-RunHolds n (stop final v w) (stops h) k = h
  next_round-RunHolds n (go_on servers zone last v w) (goes (h, l)) k = k servers zone last v w h l

  -- What holds of every way to stop holds of the loop.
  pub rounds-RunHolds :
      (n : ℕ) (servers : List NsEntry) (zone : Bytes) (last : Option Failure) (v : Visited)
      (w : World)
      → V n v
      → W w
      → RunHolds S (rounds r lookup again name qtype class skip n servers zone last v w)
  unfolding rounds
  rounds-RunHolds zero servers zone last v w h k = runs_out v w last h k
  rounds-RunHolds (suc n) servers zone last v w h k =
      next_round-RunHolds n (step r lookup again name qtype class skip servers zone last v w)
        (step-StepHolds (rule n) name qtype class servers zone last v w h k) (rounds-RunHolds n)
