-- ===== src/Security/Acl/Zones.antt =====
-- `inZoneOrEqual` of security/acl.go and the test of the other files.
use labyrinth.Prelude.{
  suc, append_assoc, ◌-◌, ◌<◌, Bool, true, false, ◌&&◌, [], ◌∷◌, ◌++◌, Bytes, ◌≡◌, ltb, ◌==◌,
  length, get_or, arith, refl, ap, sym, ◌∙◌, length-append,
}
use labyrinth.Text.{has_suffix}
use labyrinth.Text.Zone.{at_or_below, has_suffix-front, has_suffix-append}
use labyrinth.Security.Acl.{in_zone_or_equal}

dotted : (front : Bytes) (zone : Bytes) → get_or (front ++ (b'.' ∷ zone)) (length front) 0 ≡ b'.'
dotted [] zone = refl
dotted (c ∷ front) zone = dotted front zone

-- A front whose last byte is a dot.
front_dot :
    (front zone : Bytes)
    → 0 < length front
    → get_or (front ++ zone) (length front - 1) 0 ≡ b'.'
    → (rest : Bytes) × (front ++ zone ≡ rest ++ (b'.' ∷ zone))
front_dot [] zone pos h = elim pos [ ]
front_dot (c ∷ []) zone pos h = ([], ap (λ c. c ∷ zone) h)
front_dot (c ∷ d ∷ front) zone pos h =
    let e : length (c ∷ d ∷ front) - 1 ≡ suc (length (d ∷ front) - 1) = omega arith in
    let (rest, r) = front_dot (d ∷ front) zone (omega arith) (rw e at h) in (c ∷ rest, ap (◌∷◌ c) r)

abbrev looks_back : Bytes → Bytes → Bool
looks_back qname zone =
    ltb (length zone) (length qname)
    && get_or qname (length qname - length zone - 1) 0 == b'.'
    && has_suffix qname zone

looks_back-below :
    (qname zone : Bytes) → looks_back qname zone ≡ true → has_suffix qname (b'.' ∷ zone) ≡ true
looks_back-below qname zone h =
    let (front, e) = has_suffix-front qname zone (ground arith) in
    let len = ap length e ∙ length-append front zone in
    let at : length qname - length zone - 1 ≡ length front - 1 = omega arith in
    let byte : get_or qname (length qname - length zone - 1) 0 ≡ b'.' = ground arith in
    let (rest, r) = front_dot front zone (ground arith) (rw (← e, ← at) byte) in
    rw (e, r) (has_suffix-append rest (b'.' ∷ zone))

below-looks_back :
    (qname zone : Bytes) → has_suffix qname (b'.' ∷ zone) ≡ true → looks_back qname zone ≡ true
below-looks_back qname zone h =
    let (front, e) = has_suffix-front qname (b'.' ∷ zone) h in
    let len = ap length e ∙ length-append front (b'.' ∷ zone) in
    let at : length qname - length zone - 1 ≡ length front = omega arith in
    let byte : get_or qname (length front) 0 ≡ b'.' = rw e (dotted front zone) in
    let back : has_suffix qname zone ≡ true =
      rw (e ∙ sym (append_assoc front (b'.' ∷ []) zone))
        (has_suffix-append (front ++ b'.' ∷ []) zone) in
    rw at (ground arith)

bool_ext : (a b : Bool) → (a ≡ true → b ≡ true) → (b ≡ true → a ≡ true) → a ≡ b
bool_ext true b f g = sym (f refl)
bool_ext false true f g = g refl
bool_ext false false f g = refl

-- acl.go looks at the byte before the suffix, and the other files put a dot before the zone: the
-- tests agree.
pub in_zone_or_equal-at_or_below :
    (qname zone : Bytes) → in_zone_or_equal qname zone ≡ at_or_below qname zone
unfolding in_zone_or_equal
in_zone_or_equal-at_or_below qname zone =
    let e = bool_ext _ _ (looks_back-below qname zone) (below-looks_back qname zone) in
    ground (arith, e)
