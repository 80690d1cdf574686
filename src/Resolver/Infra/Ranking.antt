-- ===== src/Resolver/Infra/Ranking.antt =====
-- The order of the name servers of resolver/infracache.go, and what a success or a failure changes.
use labyrinth.Prelude.{
  ℕ, ◌+◌, ◌≤◌, ◌≡◌, List, [], ◌∷◌, some, Bytes, refl, if◌then◌else◌, leb, ◌==◌, inl, inr, arith,
  Bool-cases, Option-cases,
}
use labyrinth.Prelude.Select.{select}
use labyrinth.Text.{equal}
use labyrinth.Text.Labels.{equal_iff}
use labyrinth.Resolver.Infra.{
  NsEntry, NsInfo, InfraCache, info_at, put_info, record_failure, failure_penalty, effective_rtt,
  entry_rtt, insert_entry, sort_by_rtt,
}

-- No entry is slower than a later one.
abbrev pub IsRanked : InfraCache → List NsEntry → Type 0
IsRanked ic [] = Unit {0}
IsRanked ic (e ∷ []) = Unit {0}
IsRanked ic (e ∷ x ∷ xs) = (entry_rtt ic e ≤ entry_rtt ic x) × IsRanked ic (x ∷ xs)

-- The entries of one effective time, in their order.
abbrev pub of_time : InfraCache → ℕ → List NsEntry → List NsEntry
of_time ic t es = select (λ e. entry_rtt ic e == t) es

cons-IsRanked :
    (ic : InfraCache) (x e : NsEntry) (xs : List NsEntry)
    → entry_rtt ic x ≤ entry_rtt ic e
    → IsRanked ic (x ∷ xs)
    → IsRanked ic (insert_entry ic e xs)
    → IsRanked ic (x ∷ insert_entry ic e xs)
unfolding insert_entry
cons-IsRanked ic x e [] h r s = (h, tt)
cons-IsRanked ic x e (y ∷ xs) h r s = elim (Bool-cases (leb (entry_rtt ic e) (entry_rtt ic y))) [
  | inl l ↦ rw l (h, rw l at s)
  | inr g ↦ rw g (r.0, rw g at s)
]

insert_entry-IsRanked :
    (ic : InfraCache) (e : NsEntry) (xs : List NsEntry)
    → IsRanked ic xs
    → IsRanked ic (insert_entry ic e xs)
unfolding insert_entry
insert_entry-IsRanked ic e [] r = tt
insert_entry-IsRanked ic e (x ∷ []) r = ground arith
insert_entry-IsRanked ic e (x ∷ y ∷ xs) r =
    elim (Bool-cases (leb (entry_rtt ic e) (entry_rtt ic x))) [
      | inl l ↦ rw l (ground arith, r)
      | inr g ↦
          rw g (
            cons-IsRanked ic x e (y ∷ xs) (ground arith) r
              (insert_entry-IsRanked ic e (y ∷ xs) r.1))
    ]

insert_entry-of_time :
    (ic : InfraCache) (t : ℕ) (e : NsEntry) (xs : List NsEntry)
    → of_time ic t (insert_entry ic e xs) ≡ of_time ic t (e ∷ xs)
unfolding insert_entry select
insert_entry-of_time ic t e [] = refl
insert_entry-of_time ic t e (x ∷ xs) = elim (Bool-cases (leb (entry_rtt ic e) (entry_rtt ic x))) [
  | inl l ↦ rw l refl
  | inr g ↦ elim (Bool-cases (entry_rtt ic e == t)) [
    | inr d ↦ rw g (ground (arith, d, insert_entry-of_time ic t e xs))
    | inl s ↦ elim (Bool-cases (entry_rtt ic x == t)) [
      | inl b ↦ absurd (ground arith)
      | inr d ↦ rw g (ground (arith, d, insert_entry-of_time ic t e xs))
    ]
  ]
]

sort_by_rtt-of_time :
    (ic : InfraCache) (t : ℕ) (es : List NsEntry)
    → of_time ic t (sort_by_rtt ic es) ≡ of_time ic t es
unfolding sort_by_rtt select
sort_by_rtt-of_time ic t [] = refl
sort_by_rtt-of_time ic t (e ∷ es) =
    rw (insert_entry-of_time ic t e (sort_by_rtt ic es), sort_by_rtt-of_time ic t es) refl

sort_by_rtt-IsRanked : (ic : InfraCache) (es : List NsEntry) → IsRanked ic (sort_by_rtt ic es)
unfolding sort_by_rtt
sort_by_rtt-IsRanked ic [] = tt
sort_by_rtt-IsRanked ic (e ∷ es) =
    insert_entry-IsRanked ic e (sort_by_rtt ic es) (sort_by_rtt-IsRanked ic es)

-- `SortByRTT` puts the fastest servers first, by the time with its penalties, and keeps the servers
-- of any one time, all of them and in their order.
pub sort_by_rtt-IsRanked_stable :
    (ic : InfraCache) (es : List NsEntry)
    → IsRanked ic (sort_by_rtt ic es)
      × ((t : ℕ) → of_time ic t (sort_by_rtt ic es) ≡ of_time ic t es)
sort_by_rtt-IsRanked_stable ic es = (sort_by_rtt-IsRanked ic es, λ t. sort_by_rtt-of_time ic t es)

pub info_at-put_info :
    (k ip : Bytes) (info : NsInfo) (ic : InfraCache)
    → info_at k (put_info ip info ic) ≡ (if equal ip k then some info else info_at k ic)
unfolding info_at put_info
info_at-put_info k ip info [] = refl
info_at-put_info k ip info ((j, old) ∷ rest) = elim (Bool-cases (equal j ip)) [
  | inl e ↦ let s : j ≡ ip = (equal_iff j ip).0 e in rw e (rw s (ground arith))
  | inr d ↦ rw d (elim (Bool-cases (equal j k)) [
    | inr n ↦ rw n (info_at-put_info k ip info rest)
    | inl s ↦
        let same : j ≡ k = (equal_iff j k).0 s in
        elim (Bool-cases (equal ip k)) [
          | inr n ↦ rw (s, n) refl
          | inl t ↦
              let other : ip ≡ k = (equal_iff ip k).0 t in
              absurd (ground (arith, (equal_iff j ip).1 cc))
        ]
  ])
]

-- A failure adds half a second to the effective time of its server, one that was unknown included,
-- and changes that of no other.
pub effective_rtt-record_failure :
    (now : ℕ) (ip k : Bytes) (ic : InfraCache)
    → effective_rtt (record_failure now ip ic) k
      ≡ (if equal ip k then effective_rtt ic k + failure_penalty else effective_rtt ic k)
unfolding effective_rtt record_failure
effective_rtt-record_failure now ip k ic =
    rw (effective_rtt, record_failure, info_at-put_info k ip _ ic)
      (elim (Bool-cases (equal ip k)) [
        | inr n ↦ rw n refl
        | inl s ↦
            let same : ip ≡ k = (equal_iff ip k).0 s in
            rw s (
              rw same (elim (Option-cases (info_at k ic)) [
                | inl u ↦ rw u refl
                | inr (info, u) ↦ rw u (omega arith)
              ]))
      ])
