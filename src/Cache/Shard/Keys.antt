-- ===== src/Cache/Shard/Keys.antt =====
-- The map of a shard: what an insertion and a deletion do to a look-up and to the length.
use labyrinth.Prelude.{
  ◌≤◌, ◌<◌, true, false, [], ◌∷◌, none, some, ◌≡◌, ◌↔◌, inl, inr, ==_iff, length, arith, refl, sym,
  ◌∙◌, Bool-cases,
}
use labyrinth.Text.Labels.{equal_iff, equal_refl}
use labyrinth.Cache.Entry.{Entry}
use labyrinth.Cache.Shard.{CacheKey, EntryMap, same_key, lookup, delete, insert}

same_fields :
    {a b : CacheKey}
    → a.name ≡ b.name
    → a.qtype ≡ b.qtype
    → a.class ≡ b.class
    → a.ecs_prefix ≡ b.ecs_prefix
    → a ≡ b
same_fields n q c e i = record { name = n i; qtype = q i; class = c i; ecs_prefix = e i }

pub same_key_iff : (a b : CacheKey) → (same_key a b ≡ true) ↔ (a ≡ b)
unfolding same_key
same_key_iff a b = (to, from)
  where
    to : same_key a b ≡ true → a ≡ b
    to h =
        same_fields ((equal_iff a.name b.name).0 (ground arith))
          ((==_iff a.qtype b.qtype).0 (ground arith)) ((==_iff a.class b.class).0 (ground arith))
          ((equal_iff a.ecs_prefix b.ecs_prefix).0 (ground arith))

    from : a ≡ b → same_key a b ≡ true
    from e = rw e (ground (arith, equal_refl b.name, equal_refl b.ecs_prefix))

pub same_key_refl : (a : CacheKey) → same_key a a ≡ true
same_key_refl a = (same_key_iff a a).1 refl

pub lookup-delete-same : (k : CacheKey) (m : EntryMap) → lookup k (delete k m) ≡ none
unfolding lookup delete
lookup-delete-same k [] = refl
lookup-delete-same k ((a, x) ∷ m) = ground (arith, lookup-delete-same k m)

pub lookup-delete-other :
    (k other : CacheKey) (m : EntryMap)
    → same_key k other ≡ false
    → lookup other (delete k m) ≡ lookup other m
unfolding lookup delete
lookup-delete-other k other [] h = refl
lookup-delete-other k other ((a, x) ∷ m) h = elim (Bool-cases (same_key a k)) [
  | inl e ↦
      let d : same_key a other ≡ false = rw ((same_key_iff a k).0 e) h in
      rw (e, d) (lookup-delete-other k other m h)
  | inr n ↦ ground (arith, lookup-delete-other k other m h)
]

pub lookup-delete :
    (k other : CacheKey) (m : EntryMap) (e : Entry)
    → lookup other (delete k m) ≡ some e
    → lookup other m ≡ some e
lookup-delete k other m e h = elim (Bool-cases (same_key k other)) [
  | inl s ↦
      let d : lookup other (delete k m) ≡ none =
        rw (← (same_key_iff k other).0 s) (lookup-delete-same k m) in
      absurd (cc (h, d))
  | inr n ↦ sym (lookup-delete-other k other m n) ∙ h
]

pub lookup-insert-same :
    (k : CacheKey) (e : Entry) (m : EntryMap) → lookup k (insert k e m) ≡ some e
unfolding lookup insert
lookup-insert-same k e m = rw (same_key_refl k)

pub lookup-insert-other :
    (k other : CacheKey) (e : Entry) (m : EntryMap)
    → same_key k other ≡ false
    → lookup other (insert k e m) ≡ lookup other m
unfolding lookup insert
lookup-insert-other k other e m h = rw h (lookup-delete-other k other m h)

pub length-delete : (k : CacheKey) (m : EntryMap) → length (delete k m) ≤ length m
unfolding delete
length-delete k [] = omega arith
length-delete k ((a, x) ∷ m) = ground (arith, length-delete k m)

-- Deleting a key that is there makes the map shorter.
pub length-delete-lt :
    (k : CacheKey) (m : EntryMap) (e : Entry) → lookup k m ≡ some e → length (delete k m) < length m
unfolding lookup delete
length-delete-lt k [] e h = absurd cc
length-delete-lt k ((a, x) ∷ m) e h = elim (Bool-cases (same_key a k)) [
  | inl s ↦ rw s (omega (arith, length-delete k m))
  | inr n ↦
      let r : lookup k m ≡ some e = rw n at h in rw n (omega (arith, length-delete-lt k m e r))
]
