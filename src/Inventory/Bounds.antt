-- ===== src/Inventory/Bounds.antt =====
-- Bounds on the waits of internal/controller/controller.go: `maxTTL`, `maxDuration` and the backoff of a retry.
use dnssec_keyrotation.Base.{
  zero, suc, ℕ, ◌≤◌, ◌*◌, ◌^◌, min, List, [], ◌∷◌, All, arith, ltb, if◌then◌else◌,
}
use dnssec_keyrotation.Model.{Zone, RrSet, minute}
use dnssec_keyrotation.Inventory.Material.{max_ttl, max_ttl_from}
use dnssec_keyrotation.Controller.Moves.{backoff}

abbrev larger : ℕ → ℕ → ℕ
larger m t = if ltb m t then t else m

larger_left : (m t : ℕ) → m ≤ larger m t
larger_left m t = ground arith

larger_right : (m t : ℕ) → t ≤ larger m t
larger_right m t = ground arith

larger_least : (m t b : ℕ) → m ≤ b → t ≤ b → larger m t ≤ b
larger_least m t b hm ht = ground arith

from_start : (m : ℕ) (rs : List RrSet) → m ≤ max_ttl_from m rs
unfolding max_ttl_from
from_start m [] = omega arith
from_start m (r ∷ rs) =
    let step = larger_left m r.ttl in let rest = from_start (larger m r.ttl) rs in omega arith

from_upper : (m : ℕ) (rs : List RrSet) → All (λ r. r.ttl ≤ max_ttl_from m rs) rs
unfolding max_ttl_from
from_upper m [] = tt
from_upper m (r ∷ rs) = (
  reaches (larger_right m r.ttl) (from_start (larger m r.ttl) rs),
  from_upper (larger m r.ttl) rs,
)
  where
    reaches : {a b d : ℕ} → a ≤ b → b ≤ d → a ≤ d
    reaches h k = omega arith

from_least : (m b : ℕ) (rs : List RrSet) → m ≤ b → All (λ r. r.ttl ≤ b) rs → max_ttl_from m rs ≤ b
unfolding max_ttl_from
from_least m b [] hm h = hm
from_least m b (r ∷ rs) hm h = from_least (larger m r.ttl) b rs (larger_least m r.ttl b hm h.0) h.1

-- The maximum TTL of a zone is the least upper bound of one day and the TTLs of its RRsets, so it is
-- never zero.
pub max_ttl-least_upper_bound :
    (z : Zone)
    → (86400 ≤ max_ttl z)
      × All (λ r. r.ttl ≤ max_ttl z) z.rrsets
      × ((b : ℕ) → 86400 ≤ b → All (λ r. r.ttl ≤ b) z.rrsets → max_ttl z ≤ b)
unfolding max_ttl
max_ttl-least_upper_bound z = (
  from_start 86400 z.rrsets,
  from_upper 86400 z.rrsets,
  λ b day h. from_least 86400 b z.rrsets day h,
)

power_le : (m n : ℕ) → m ≤ n → 2 ^ m ≤ 2 ^ n
power_le zero zero h = omega arith
power_le zero (suc n) h = let below = power_le zero n (omega arith) in omega arith
power_le (suc m) zero h = omega arith
power_le (suc m) (suc n) h = let below = power_le m n (omega arith) in omega arith

-- The backoff of a retry never shrinks as the attempts grow, and is at most 256 minutes.
pub backoff-bounded : (m n : ℕ) → m ≤ n → (backoff m ≤ backoff n) × (backoff n ≤ 256 * minute)
unfolding backoff
backoff-bounded m n h =
    let grows = power_le (min m 8) (min n 8) (ground arith) in
    let bounded = power_le (min n 8) 8 (ground arith) in (omega arith, omega arith)
