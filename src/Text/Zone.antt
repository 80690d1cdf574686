-- ===== src/Text/Zone.antt =====
-- A name at or below a zone: the test on texts that the program writes in many places, against the
-- labels of the two names.
use labyrinth.Prelude.{
  ◌-◌, ◌<◌, ◌≡◌, ◌↔◌, Bool, true, ◌||◌, refl, ap, sym, ◌∙◌, List, [], ◌∷◌, ◌++◌, some, none, arith,
  Bytes, ◌==◌, length, drop, take, length-append, append_assoc, inl, inr, Bool-cases, drop-append,
  take-append-drop,
}
use labyrinth.Text.{equal, has_suffix, after_dot, join, split}
use labyrinth.Text.Labels.{equal_iff, equal_refl, split_pieces, join-split}

-- The labels of the name end in those of the zone.
abbrev pub IsUnder : Bytes → Bytes → Type 0
IsUnder name zone = (front : List Bytes) × (split name ≡ front ++ split zone)

-- `name == zone || strings.HasSuffix(name, "."+zone)`.
abbrev pub at_or_below : Bytes → Bytes → Bool
at_or_below name zone = equal name zone || has_suffix name (b'.' ∷ zone)

pub has_suffix-front :
    (s suffix : Bytes) → has_suffix s suffix ≡ true → (front : Bytes) × (s ≡ front ++ suffix)
unfolding has_suffix
has_suffix-front s suffix h =
    let n = length s - length suffix in
    (
      take n s,
      sym (take-append-drop n s)
          ∙ ap (λ t. take n s ++ t) ((equal_iff (drop n s) suffix).0 (ground arith)),
    )

pub has_suffix-append : (front suffix : Bytes) → has_suffix (front ++ suffix) suffix ≡ true
unfolding has_suffix
has_suffix-append front suffix =
    let e : length (front ++ suffix) - length suffix ≡ length front =
      omega (arith, length-append {0} front suffix) in
    rw (e, drop-append front suffix, equal_refl suffix)
      (ground (arith, length-append {0} front suffix))

-- A dot separates the labels of what stands before it from those of what stands behind it.
pub split-append : (p z : Bytes) → split (p ++ (b'.' ∷ z)) ≡ split p ++ split z
unfolding split
split-append [] z = refl
split-append (c ∷ p) z =
    let (l, ls, e, _) = split_pieces p in
    elim (Bool-cases (c == b'.')) [
      | inl d ↦ rw d (ap (◌∷◌ []) (split-append p z))
      | inr d ↦ rw (d, split-append p z, e) refl
    ]

join-append :
    (ks : List Bytes) (k l : Bytes) (ls : List Bytes)
    → join ((k ∷ ks) ++ (l ∷ ls)) ≡ join (k ∷ ks) ++ (b'.' ∷ join (l ∷ ls))
unfolding join
join-append [] k l ls = refl
join-append (m ∷ ks) k l ls =
    ap (λ t. k ++ (b'.' ∷ t)) (join-append ks m l ls)
    ∙ sym (append_assoc k (b'.' ∷ join (m ∷ ks)) _)

IsUnder-at_or_below : (name zone : Bytes) → IsUnder name zone → at_or_below name zone ≡ true
IsUnder-at_or_below name zone ([], e) =
    let same = sym (join-split name) ∙ ap join e ∙ join-split zone in
    ground (arith, (equal_iff name zone).1 same)
IsUnder-at_or_below name zone (k ∷ ks, e) =
    let (l, ls, s, j) = split_pieces zone in
    let whole : name ≡ join (k ∷ ks) ++ (b'.' ∷ zone) =
      sym (join-split name)
      ∙ ap join (e ∙ ap (λ t. (k ∷ ks) ++ t) s)
      ∙ join-append ks k l ls
      ∙ ap (λ t. join (k ∷ ks) ++ (b'.' ∷ t)) j in
    let below : has_suffix name (b'.' ∷ zone) ≡ true =
      rw whole (has_suffix-append (join (k ∷ ks)) (b'.' ∷ zone)) in
    ground (arith, below)

at_or_below-IsUnder : (name zone : Bytes) → at_or_below name zone ≡ true → IsUnder name zone
at_or_below-IsUnder name zone h = elim (Bool-cases (equal name zone)) [
  | inl same ↦ ([], ap split ((equal_iff name zone).0 same))
  | inr other ↦
      let (p, e) = has_suffix-front name (b'.' ∷ zone) (ground arith) in
      (split p, ap split e ∙ split-append p zone)
]

-- The test on texts decides the relation on labels.
pub at_or_below_iff : (name zone : Bytes) → (at_or_below name zone ≡ true) ↔ IsUnder name zone
at_or_below_iff name zone = (at_or_below-IsUnder name zone, IsUnder-at_or_below name zone)

-- The text behind the first dot has all the labels but the first.
pub after_dot-some :
    (s : Bytes) {rest : Bytes} → after_dot s ≡ some rest → (l : Bytes) × (split s ≡ l ∷ split rest)
unfolding after_dot split
after_dot-some [] h = absurd cc
after_dot-some (c ∷ s) {rest} h = elim (Bool-cases (c == b'.')) [
  | inl d ↦ let e : s ≡ rest = ground arith in ([], ground (arith, ap split e))
  | inr d ↦ let (l, e) = after_dot-some s {rest = rest} (ground arith) in (c ∷ l, rw (d, e))
]

pub after_dot-none : (s : Bytes) → after_dot s ≡ none → split s ≡ s ∷ []
unfolding after_dot split
after_dot-none [] h = refl
after_dot-none (c ∷ s) h = ground (arith, after_dot-none s)

pub length-after_dot : (s : Bytes) {rest : Bytes} → after_dot s ≡ some rest → length rest < length s
unfolding after_dot
length-after_dot [] h = absurd cc
length-after_dot (c ∷ s) {rest} h = elim (Bool-cases (c == b'.')) [
  | inl d ↦ let e : s ≡ rest = ground arith in omega (arith, ap length e)
  | inr d ↦ omega (arith, length-after_dot s {rest = rest} (rw d at h))
]
