-- ===== src/Dns/Record/Safe.antt =====
-- The slices and reads of dns/record.go and dns/question.go, and their bounds.
use labyrinth.Prelude.{
  ℕ, zero, suc, ◌+◌, ◌≤◌, ◌<◌, Bool, true, false, ◌||◌, List, ◌++◌, Bytes, leb, ltb, ◌==◌, ◌≡◌, ◌≢◌,
  if◌then◌else◌, length, get_or, arith, refl, ap, ◌∙◌, get_or-get_elem?,
}
use labyrinth.Dns.Wire.{
  Error, Result, ok, err, truncated, out_of_range, out_of_fuel, ◌>>=◌, WireReader, read_uint16,
  read_uint32, slice_at,
}
use labyrinth.Dns.Name.{
  Cursor, decode_loop, decode_name, start, target_at, after_pointer, after_label,
}
use labyrinth.Dns.Name.Grammar.{Spells, root, label, pointer}
use labyrinth.Dns.Name.Decode.{decode_name-total}
use labyrinth.Dns.Name.Complete.{decode_name-SpellsName}
use labyrinth.Dns.Message.{
  type_ns, type_cname, type_ptr, type_dname, type_mx, type_soa, type_srv, type_rrsig, type_nsec,
}
use labyrinth.Dns.Record.{
  copy_rdata, encode_plain_name, unpack_name_rdata, unpack_prefixed_rdata, unpack_soa_rdata,
  unpack_tailed_rdata, unpack_rdata,
}

-- An error that the code returns: no panic, and no loop that is cut off.
abbrev pub IsReturned : Error → Type 0
IsReturned e = (e ≢ out_of_range) × (e ≢ out_of_fuel)

-- The result is such an error, or has the property.
pub data Safe {A : Type 0} (P : A → Type 0) : Result A → Type 0 where
  returned : {e : Error} → IsReturned e → Safe P (err e)
  value : {x : A} → P x → Safe P (ok x)

pub bind-Safe :
    {A B : Type 0} {P : A → Type 0} (Q : B → Type 0) {first : Result A} (rest : A → Result B)
    → Safe P first
    → ((x : A) → P x → Safe Q (rest x))
    → Safe Q (first >>= rest)
bind-Safe Q rest (returned i) f = returned i
bind-Safe Q rest (value {x} p) f = f x p

pub if-Safe :
    {A : Type 0} (P : A → Type 0) (b : Bool) {x y : Result A}
    → (b ≡ true → Safe P x)
    → (b ≡ false → Safe P y)
    → Safe P (if b then x else y)
if-Safe P true f g = f refl
if-Safe P false f g = g refl

Spells-end :
    {msg : Bytes} {off : ℕ} {ls : List Bytes} {e p : ℕ}
    → Spells msg off ls e p
    → (off < e) × (e ≤ length msg)
Spells-end {msg} {off} (root h q r) =
    (omega (arith, q), omega (arith, q, (get_or-get_elem? msg off 0 h).0))
Spells-end {msg} {off} (label l h pos fits n inside cut s) =
    let (a, b) = Spells-end s in (omega (arith, a, n), b)
Spells-end {msg} {off} (pointer a b e' q h k m back s x y) =
    (omega (arith, x), omega (arith, x, (get_or-get_elem? msg (off + 1) 0 k).0))

decode_loop-in_range :
    (fuel : ℕ) (msg : Bytes) (offset : ℕ) (s : Cursor)
    → decode_loop fuel msg offset s ≢ err out_of_range
unfolding decode_loop
decode_loop-in_range zero msg offset s h = absurd cc
decode_loop-in_range (suc fuel) msg offset s h = ground (
  arith,
  decode_loop-in_range fuel msg (target_at msg offset) (after_pointer offset s),
  decode_loop-in_range fuel msg (offset + 1 + get_or msg offset 0) (after_label msg offset s),
)

-- What a name that is read leaves.
abbrev pub EndsIn : Bytes → ℕ → Bytes × ℕ → Type 0
EndsIn msg offset r = (offset < r.1) × (r.1 ≤ length msg)

pub decode_name-Safe :
    (msg : Bytes) (offset : ℕ) → Safe (EndsIn msg offset) (decode_name msg offset)
unfolding decode_name
decode_name-Safe msg offset = by_result (decode_name msg offset) refl
  where
    by_result : (r : Result (Bytes × ℕ)) → decode_name msg offset ≡ r → Safe (EndsIn msg offset) r
    by_result (err e) h = returned (
      (λ x. decode_loop-in_range 384 msg offset start (h ∙ ap err x)),
      (λ x. decode_name-total msg offset (h ∙ ap err x)),
    )
    by_result (ok (name, e)) h = value (Spells-end (decode_name-SpellsName h).spells)

-- A number that is read moves the reader, inside the bytes.
abbrev pub Moves : ℕ → WireReader → ℕ × WireReader → Type 0
Moves n r p = (p.1.buf ≡ r.buf) × (p.1.offset ≡ r.offset + n) × (r.offset + n ≤ length r.buf)

pub truncated-IsReturned : IsReturned truncated
truncated-IsReturned = ((λ e. cc), (λ e. cc))

pub read_uint16-Safe : (r : WireReader) → Safe (Moves 2 r) (read_uint16 r)
unfolding read_uint16
read_uint16-Safe r =
    if-Safe (Moves 2 r) (ltb (length r.buf) (r.offset + 2)) (λ t. returned truncated-IsReturned)
      (λ f. value (refl, refl, ground arith))

pub read_uint32-Safe : (r : WireReader) → Safe (Moves 4 r) (read_uint32 r)
unfolding read_uint32
read_uint32-Safe r =
    if-Safe (Moves 4 r) (ltb (length r.buf) (r.offset + 4)) (λ t. returned truncated-IsReturned)
      (λ f. value (refl, refl, ground arith))

abbrev pub Any : Bytes → Type 0
Any b = Unit {0}

pub slice_at-Safe : (b : Bytes) (i j : ℕ) → i ≤ j → j ≤ length b → Safe Any (slice_at b i j)
unfolding slice_at
slice_at-Safe b i j u v =
    let p : ltb j i ≡ false = ground arith in
    let q : ltb (length b) j ≡ false = ground arith in rw (p, q) (value tt)

module _ (msg : Bytes) (start n : ℕ) (inside : start + n ≤ length msg) where
  copy_rdata-Safe : Safe Any (copy_rdata msg start n)
  unfolding copy_rdata
  copy_rdata-Safe = slice_at-Safe msg start (start + n) (omega arith) inside

  -- What is done with a name that may fail to decode.
  named-Safe :
      (good : Bytes × ℕ → Result Bytes) (r : Result (Bytes × ℕ))
      → ((x : Bytes × ℕ) → Safe Any (good x))
      → Safe Any (elim r [ ok x ↦ good x | err _ ↦ copy_rdata msg start n ])
  named-Safe good (ok x) f = f x
  named-Safe good (err e) f = copy_rdata-Safe

  unpack_name_rdata-Safe : Safe Any (unpack_name_rdata msg start n)
  unfolding unpack_name_rdata
  unpack_name_rdata-Safe =
      named-Safe (λ x. ok (encode_plain_name x.0)) (decode_name msg start) (λ x. value tt)

  unpack_prefixed_rdata-Safe : (k : ℕ) → Safe Any (unpack_prefixed_rdata k msg start n)
  unfolding unpack_prefixed_rdata
  unpack_prefixed_rdata-Safe k =
      if-Safe Any (leb k n)
        (λ t.
          bind-Safe Any _ (slice_at-Safe msg start (start + k) (omega arith) (ground arith))
            (λ fixed _.
              named-Safe (λ x. ok (fixed ++ encode_plain_name x.0)) (decode_name msg (start + k))
                (λ x. value tt)))
        (λ f. copy_rdata-Safe)

  unpack_soa_rdata-Safe : Safe Any (unpack_soa_rdata msg start n)
  unfolding unpack_soa_rdata
  unpack_soa_rdata-Safe = named-Safe _ (decode_name msg start) (λ m.
      named-Safe _ (decode_name msg m.1) (λ r.
        if-Safe Any (ltb (start + n) (r.1 + 20)) (λ t. copy_rdata-Safe)
          (λ f.
            bind-Safe Any _ (slice_at-Safe msg r.1 (r.1 + 20) (omega arith) (ground arith))
              (λ x _. value tt))))

  unpack_tailed_rdata-Safe : (k : ℕ) → Safe Any (unpack_tailed_rdata k msg start n)
  unfolding unpack_tailed_rdata
  unpack_tailed_rdata-Safe k =
      if-Safe Any (leb k n)
        (λ t. named-Safe _ (decode_name msg (start + k)) (λ x.
          if-Safe Any (leb x.1 (start + n))
            (λ u.
              bind-Safe Any _ (slice_at-Safe msg start (start + k) (omega arith) (ground arith))
                (λ fixed _.
                  bind-Safe Any _ (slice_at-Safe msg x.1 (start + n) (ground arith) inside)
                    (λ tail _. value tt)))
            (λ f. copy_rdata-Safe)))
        (λ f. copy_rdata-Safe)

  pub unpack_rdata-Safe : (rtype : ℕ) → Safe Any (unpack_rdata rtype msg start n)
  unfolding unpack_rdata
  unpack_rdata-Safe rtype =
      if-Safe Any
        (rtype == type_ns || rtype == type_cname || rtype == type_ptr || rtype == type_dname)
        (λ a. unpack_name_rdata-Safe)
        (λ a.
          if-Safe Any (rtype == type_mx) (λ b. unpack_prefixed_rdata-Safe 2)
            (λ b.
              if-Safe Any (rtype == type_soa) (λ c. unpack_soa_rdata-Safe)
                (λ c.
                  if-Safe Any (rtype == type_srv) (λ d. unpack_prefixed_rdata-Safe 6)
                    (λ d.
                      if-Safe Any (rtype == type_rrsig) (λ e. unpack_tailed_rdata-Safe 18)
                        (λ e.
                          if-Safe Any (rtype == type_nsec) (λ f. unpack_tailed_rdata-Safe 0)
                            (λ f. copy_rdata-Safe))))))
