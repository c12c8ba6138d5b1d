-- ===== src/Inventory/Material.antt =====
-- `sameMaterial`, `maxTTL`, `maxDuration`, `jobSucceeded` and `jobFailed` of
-- internal/controller/controller.go.
use dnssec_keyrotation.Base.{
  ℕ, String, Bool, false, List, [], ◌∷◌, map, nat_eq, string_eq, ◌==◌, ltb, contains, if◌then◌else◌,
  length, sort_by, equal_lists,
}
use dnssec_keyrotation.Base.Text.{trim_space, to_upper}
use dnssec_keyrotation.Base.Order.{Slashed, slashed_eq, slashed_le}
use dnssec_keyrotation.Model.{DnssecData, Zone, RrSet, Duration}

-- the text that `sameMaterial` compares
unfoldable pub material_key : DnssecData → Slashed
material_key d = record {
  first = d.flags;
  second = d.protocol;
  third = d.algorithm;
  last = trim_space d.public_key;
}

-- `sameMaterial`
unfoldable pub same_material : List DnssecData → List DnssecData → Bool
unfolding sort_by equal_lists material_key
same_material a b =
    if length a == length b
    then equal_lists (sort_by slashed_le (map material_key a))
        (sort_by slashed_le (map material_key b))
    else false

-- the loop of `maxTTL`
unfoldable pub max_ttl_from : ℕ → List RrSet → ℕ
max_ttl_from maximum [] = maximum
max_ttl_from maximum (r ∷ rest) = max_ttl_from (if ltb maximum r.ttl then r.ttl else maximum) rest

-- `maxTTL`, in seconds: every use divides the duration by a second again
unfoldable pub max_ttl : Zone → ℕ
unfolding max_ttl_from
max_ttl z = max_ttl_from 86400 z.rrsets

-- `maxDuration`
unfoldable pub max_duration : Duration → Duration → Duration
max_duration a b = if ltb b a then a else b

-- `jobSucceeded`
unfoldable pub job_succeeded : String → Bool
unfolding contains
job_succeeded status =
    contains ("SUCCESS" ∷ "SUCCEEDED" ∷ "DONE" ∷ "COMPLETED" ∷ []) (to_upper status)

-- `jobFailed`
unfoldable pub job_failed : String → Bool
unfolding contains
job_failed status =
    contains ("FAILED" ∷ "FAILURE" ∷ "ERROR" ∷ "CANCELED" ∷ "CANCELLED" ∷ []) (to_upper status)
