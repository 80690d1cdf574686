-- ===== src/Resolver/SpecialUse/Reserved.antt =====
-- `specialUseResponse` of resolver/specialuse.go against the labels of names.
use labyrinth.Prelude.{
  Bool, not, ◌||◌, true, false, List, [], ◌∷◌, ◌++◌, some, Bytes, ◌≡◌, ◌≢◌, ◌↔◌, inl, inr, arith,
  refl, ap, sym, ◌∙◌, Bool-cases,
}
use labyrinth.Prelude.Select.{Member}
use labyrinth.Text.{equal, to_lower, trim_suffix, split, text}
use labyrinth.Text.Labels.{equal_iff}
use labyrinth.Text.Zone.{IsUnder, at_or_below, at_or_below_iff}
use labyrinth.Dns.Message.{rcode_nx_domain}
use labyrinth.Resolver.Qmin.{last_label}
use labyrinth.Resolver.SpecialUse.{is_documentation, special_use_code, special_use_response}

-- The reserved names.
abbrev pub reserved : List Bytes
reserved =
    text "onion"
    ∷ text "invalid"
    ∷ text "test"
    ∷ text "example"
    ∷ text "local"
    ∷ text "home.arpa"
    ∷ []

abbrev pub IsReserved : Bytes → Type 0
IsReserved n = (zone : Bytes) × Member zone reserved × IsUnder n zone

last_label-append :
    (ls : List Bytes) (k : Bytes) (ks : List Bytes)
    → last_label (ls ++ (k ∷ ks)) ≡ last_label (k ∷ ks)
unfolding last_label
last_label-append [] k ks = refl
last_label-append (l ∷ []) k ks = refl
last_label-append (l ∷ m ∷ ls) k ks = last_label-append (m ∷ ls) k ks

-- A name has one last label.
last_of :
    (n zone l : Bytes) (ls : List Bytes)
    → split zone ≡ l ∷ ls
    → at_or_below n zone ≡ true
    → last_label (split n) ≡ last_label (l ∷ ls)
last_of n zone l ls z h =
    let (front, e) = (at_or_below_iff n zone).0 h in
    ap last_label (e ∙ ap (λ t. front ++ t) z) ∙ last_label-append front l ls

-- A name whose last label is none of the three is not for documentation.
not_documentation :
    (n l : Bytes)
    → last_label (split n) ≡ l
    → l ≢ text "com"
    → l ≢ text "net"
    → l ≢ text "org"
    → is_documentation n ≡ false
unfolding split last_label
not_documentation n l e no_com no_net no_org =
    elim (Bool-cases (at_or_below n (text "example.com"))) [
      | inl c ↦ absurd (
          no_com (sym e ∙ last_of n (text "example.com") (text "example") (text "com" ∷ []) refl c))
      | inr nc ↦ elim (Bool-cases (at_or_below n (text "example.net"))) [
        | inl c ↦ absurd (
            no_net
              (sym e ∙ last_of n (text "example.net") (text "example") (text "net" ∷ []) refl c))
        | inr nn ↦ elim (Bool-cases (at_or_below n (text "example.org"))) [
          | inl c ↦ absurd (
              no_org
                (sym e ∙ last_of n (text "example.org") (text "example") (text "org" ∷ []) refl c))
          | inr nz ↦ rw (nc, nn, nz) refl
        ]
      ]
    ]

named : (n l : Bytes) → last_label (split n) ≡ l → l ≢ [] → equal n [] ≡ false
unfolding split last_label
named n l e ne = elim (Bool-cases (equal n [])) [
  | inr f ↦ f
  | inl t ↦ absurd (ne (sym e ∙ ap (λ m. last_label (split m)) ((equal_iff n []).0 t)))
]

-- What the last label of a reserved name shows.
record Ends (n : Bytes) : Type 0 where
  not_root : equal n [] ≡ false
  not_example : is_documentation n ≡ false

-- No label that is missing, or under which there is documentation.
abbrev is_plain : Bytes → Bool
is_plain k =
    not (equal k [] || equal k (text "com") || equal k (text "net") || equal k (text "org"))

differs : (k m : Bytes) → equal k m ≡ false → k ≢ m
differs k m f e = cc ((equal_iff k m).1 e, f)

Ends-at_or_below :
    (n zone l k : Bytes) (ls : List Bytes)
    → split zone ≡ l ∷ ls
    → last_label (l ∷ ls) ≡ k
    → is_plain k ≡ true
    → at_or_below n zone ≡ true
    → Ends n
Ends-at_or_below n zone l k ls z e p h =
    let last = last_of n zone l ls z h ∙ e in
    record {
      not_root = named n k last (differs k [] (ground arith));
      not_example =
          not_documentation n k last (differs k (text "com") (ground arith))
            (differs k (text "net") (ground arith)) (differs k (text "org") (ground arith));
    }

code_of :
    (n : Bytes) (zone : Bytes)
    → Member zone reserved
    → at_or_below n zone ≡ true
    → special_use_code n ≡ some rcode_nx_domain
unfolding split last_label equal
code_of n zone (inl e) h =
    let a : at_or_below n (text "onion") ≡ true = rw e h in
    let d = Ends-at_or_below n (text "onion") (text "onion") (text "onion") [] refl refl refl a in
    ground (arith, a, d.not_root)
code_of n zone (inr (inl e)) h =
    let a : at_or_below n (text "invalid") ≡ true = rw e h in
    let d =
      Ends-at_or_below n (text "invalid") (text "invalid") (text "invalid") [] refl refl refl a in
    ground (arith, a, d.not_root)
code_of n zone (inr (inr (inl e))) h =
    let a : at_or_below n (text "test") ≡ true = rw e h in
    let d = Ends-at_or_below n (text "test") (text "test") (text "test") [] refl refl refl a in
    ground (arith, a, d.not_root)
code_of n zone (inr (inr (inr (inl e)))) h =
    let a : at_or_below n (text "example") ≡ true = rw e h in
    let d =
      Ends-at_or_below n (text "example") (text "example") (text "example") [] refl refl refl a in
    ground (arith, a, d.not_root, d.not_example)
code_of n zone (inr (inr (inr (inr (inl e))))) h =
    let a : at_or_below n (text "local") ≡ true = rw e h in
    let d = Ends-at_or_below n (text "local") (text "local") (text "local") [] refl refl refl a in
    ground (arith, a, d.not_root, d.not_example)
code_of n zone (inr (inr (inr (inr (inr (inl e)))))) h =
    let a : at_or_below n (text "home.arpa") ≡ true = rw e h in
    let d =
      Ends-at_or_below n (text "home.arpa") (text "home") (text "arpa") (text "arpa" ∷ []) refl refl
        refl a in
    ground (arith, a, d.not_root, d.not_example)
code_of n zone (inr (inr (inr (inr (inr (inr m)))))) h = absurd m

-- Which name is the reason.
reserved_by : (n zone : Bytes) → Member zone reserved → at_or_below n zone ≡ true → IsReserved n
reserved_by n zone m h = (zone, m, (at_or_below_iff n zone).0 h)

code-IsReserved : (n : Bytes) → special_use_code n ≡ some rcode_nx_domain → IsReserved n
code-IsReserved n h = elim (Bool-cases (at_or_below n (text "onion"))) [
  | inl a ↦ reserved_by n _ (inl refl) a
  | inr na ↦ elim (Bool-cases (at_or_below n (text "invalid"))) [
    | inl b ↦ reserved_by n _ (inr (inl refl)) b
    | inr nb ↦ elim (Bool-cases (at_or_below n (text "test"))) [
      | inl c ↦ reserved_by n _ (inr (inr (inl refl))) c
      | inr nc ↦ elim (Bool-cases (at_or_below n (text "example"))) [
        | inl d ↦ reserved_by n _ (inr (inr (inr (inl refl)))) d
        | inr nd ↦ elim (Bool-cases (at_or_below n (text "local"))) [
          | inl e ↦ reserved_by n _ (inr (inr (inr (inr (inl refl))))) e
          | inr ne ↦ elim (Bool-cases (at_or_below n (text "home.arpa"))) [
            | inl f ↦ reserved_by n _ (inr (inr (inr (inr (inr (inl refl)))))) f
            | inr nf ↦ absurd (ground (arith, h, na, nb, nc, nd, ne, nf))
          ]
        ]
      ]
    ]
  ]
]

-- `specialUseResponse` answers NXDOMAIN exactly for the names at or below onion, invalid, test,
-- example, local and home.arpa, label by label and whatever their case.
pub special_use_response_iff :
    (name : Bytes)
    → (special_use_response name ≡ some rcode_nx_domain)
      ↔ IsReserved (to_lower (trim_suffix name (b'.' ∷ [])))
unfolding special_use_response
special_use_response_iff name =
    let n = to_lower (trim_suffix name (b'.' ∷ [])) in
    (code-IsReserved n, λ r. code_of n r.0 r.1 ((at_or_below_iff n r.0).1 r.2))
