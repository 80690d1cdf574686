-- ===== src/Cache/Entry/Ttl.antt =====
-- Bounds of the TTLs, and when an entry expires.
use labyrinth.Prelude.{ℕ, ◌+◌, ◌*◌, ◌≤◌, ◌<◌, true, ◌≡◌, ◌↔◌, arith}
use labyrinth.Cache.Entry.{Entry, second, remaining_ttl, expired, clamp_ttl, failure_ttl}

pub remaining_ttl-le : (e : Entry) (now : ℕ) → remaining_ttl e now ≤ e.orig_ttl
unfolding remaining_ttl
remaining_ttl-le e now = ground arith

pub clamp_ttl-lt :
    (low high ttl bound : ℕ) → low < bound → high < bound → clamp_ttl low high ttl < bound
unfolding clamp_ttl
clamp_ttl-lt low high ttl bound l h = ground arith

pub failure_ttl-bounds : (ttl : ℕ) → (1 ≤ failure_ttl ttl) × (failure_ttl ttl ≤ 30)
unfolding failure_ttl
failure_ttl-bounds ttl = (ground arith, ground arith)

-- An entry whose TTL has 32 bits, read at or after its insertion and less than 2^32 seconds later,
-- has expired exactly when as many whole seconds as its TTL have passed.
pub expired_iff :
    (e : Entry) (now : ℕ)
    → e.inserted_at ≤ now
    → now < e.inserted_at + 4294967296 * second
    → e.orig_ttl < 4294967296
    → (expired e now ≡ true) ↔ (e.inserted_at + e.orig_ttl * second ≤ now)
unfolding expired remaining_ttl
expired_iff e now after h t = (λ x. ground arith, λ y. ground arith)
