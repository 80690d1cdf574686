-- ===== src/Dns/Record/Opt.antt =====
-- `ParseOPT` of dns/edns.go on the records that `UnpackRR` makes.
use labyrinth.Prelude.{
  true, List, [], ◌∷◌, ◌<◌, ◌==◌, ℕ, zero, suc, ◌+◌, ◌≤◌, Bytes, ltb, leb, not, ◌≡◌, length, arith,
}
use labyrinth.Dns.Message.{ResourceRecord, type_opt}
use labyrinth.Dns.Edns.{uint16_at, take_option, parse_options, parse_opt, first_opt}
use labyrinth.Dns.Record.Safe.{slice_at-Safe, Safe, value, bind-Safe, if-Safe}

-- The record has as many bytes of data as its length says, at least.
abbrev pub HasData : ResourceRecord → Type 0
HasData rr = rr.rd_length ≤ length rr.rdata

-- Every element of the list has the property.
abbrev pub AllHave : {A : Type 0} → (A → Type 0) → List A → Type 0
AllHave P [] = Unit {0}
AllHave P (x ∷ xs) = P x × AllHave P xs

uint16_at-Safe : (b : Bytes) (at : ℕ) → at + 2 ≤ length b → Safe (λ n. Unit {0}) (uint16_at b at)
unfolding uint16_at
uint16_at-Safe b at room =
    if-Safe (λ n. Unit {0}) (ltb (length b) (at + 2)) (λ t. absurd (ground arith)) (λ f. value tt)

parse_options-Safe :
    (fuel : ℕ) (rdata : Bytes) (n offset : ℕ)
    → n ≤ length rdata
    → n < offset + fuel
    → offset ≤ n
    → Safe (λ options. Unit {0}) (parse_options fuel rdata n offset)
unfolding parse_options take_option
parse_options-Safe zero rdata n offset enough fits at = absurd (omega arith)
parse_options-Safe (suc fuel) rdata n offset enough fits at =
    if-Safe (λ options. Unit {0}) (not (leb (offset + 4) n)) (λ t. value tt)
      (λ more.
        let inside : offset + 4 ≤ n = ground arith in
        bind-Safe (λ options. Unit {0}) _ (uint16_at-Safe rdata offset (omega arith))
          (λ code _.
            bind-Safe (λ options. Unit {0}) _ (uint16_at-Safe rdata (offset + 2) (omega arith))
              (λ len _.
                if-Safe (λ options. Unit {0}) (ltb n (offset + 4 + len)) (λ over. value tt)
                  (λ fit.
                    let ends : offset + 4 + len ≤ n = ground arith in
                    bind-Safe (λ options. Unit {0}) _
                      (slice_at-Safe rdata (offset + 4) (offset + 4 + len) (omega arith)
                        (omega arith))
                      (λ bytes _.
                        bind-Safe (λ options. Unit {0}) _
                          (parse_options-Safe fuel rdata n (offset + 4 + len) enough (omega arith)
                            ends)
                          (λ options _. value tt))))))

parse_opt-Safe :
    (rr : ResourceRecord)
    → HasData rr
    → rr.rtype == type_opt ≡ true
    → Safe (λ edns0. Unit {0}) (parse_opt rr)
unfolding parse_opt
parse_opt-Safe rr fits is_opt =
    if-Safe (λ edns0. Unit {0}) (not (rr.rtype == type_opt)) (λ t. absurd (ground arith))
      (λ f.
        bind-Safe (λ edns0. Unit {0}) _
          (parse_options-Safe (rr.rd_length + 1) rr.rdata rr.rd_length 0 fits (omega arith)
            (omega arith))
          (λ options _. value tt))

pub first_opt-Safe :
    (rrs : List ResourceRecord) → AllHave HasData rrs → Safe (λ o. Unit {0}) (first_opt rrs)
unfolding first_opt
first_opt-Safe [] h = value tt
first_opt-Safe (rr ∷ rrs) (h, hs) =
    if-Safe (λ o. Unit {0}) (rr.rtype == type_opt)
      (λ t. bind-Safe (λ o. Unit {0}) _ (parse_opt-Safe rr h t) (λ e _. value tt))
      (λ f. first_opt-Safe rrs hs)
