-- ===== src/Tests/Inventories.antt =====
-- The theorems on the pure checks, applied to the keys of the demo.
use mathlib.Core.List.{Perm}
use dnssec_keyrotation.Inventory.Multiset.{same_material-Perm}
use dnssec_keyrotation.Base.{◌↔◌, [], ◌∷◌, map, ℕ, All, ◌≤◌, ◌*◌, ◌≡◌, refl, true, arith}
use dnssec_keyrotation.Errors
use dnssec_keyrotation.Errors.{Result, ok}
use dnssec_keyrotation.Model
use dnssec_keyrotation.Model.{
  DnssecData, Workflow, State, Phase, hour, workflow_key, get_workflow, ksk, zsk, minute,
}
use dnssec_keyrotation.Inventory.Keys.{reject_unexpected, exactly_one_active}
use dnssec_keyrotation.Inventory.Roles.{validated_key_role, dnssec_data_for_key, key_rr}
use dnssec_keyrotation.Inventory.Prepublish.{validate_prepublish_inventory}
use dnssec_keyrotation.Inventory.Split.{validate_split_mutation_inventory}
use dnssec_keyrotation.Inventory.Sound.{
  IsPrepublished, validate_prepublish-IsPrepublished, IsSplitActive, validate_split-IsSplitActive,
}
use dnssec_keyrotation.Inventory.Material.{max_ttl, same_material, material_key}
use dnssec_keyrotation.Inventory.Bounds.{max_ttl-least_upper_bound, backoff-bounded}
use dnssec_keyrotation.Controller.Moves.{backoff}
use dnssec_keyrotation.Tests.Demo.{zone, zsk_keys, split_keys, dns, rotation}

valid_zsk :
    validate_prepublish_inventory dns "example.org." zsk_keys (rotation Model.prepublish) ≡ ok tt
unfolding validate_prepublish_inventory Errors.◌>>=◌ validated_key_role dnssec_data_for_key key_rr
    exactly_one_active reject_unexpected
valid_zsk = refl

validate_prepublish-IsPrepublished_example :
    IsPrepublished dns "example.org." zsk_keys (rotation Model.prepublish)
validate_prepublish-IsPrepublished_example =
    validate_prepublish-IsPrepublished dns "example.org." zsk_keys (rotation Model.prepublish)
      valid_zsk

abbrev migration : Workflow
migration = record (rotation Model.wait_new_signature) {
  kind = Model.split;
  old_key_id = 1;
  new_key_id = 2;
  new_zsk_id = 3;
}

valid_split : validate_split_mutation_inventory dns "example.org." split_keys migration true ≡ ok tt
unfolding validate_split_mutation_inventory Errors.◌>>=◌ validated_key_role dnssec_data_for_key
    key_rr reject_unexpected
valid_split = refl

validate_split-IsSplitActive_example : IsSplitActive dns "example.org." split_keys migration true
validate_split-IsSplitActive_example =
    validate_split-IsSplitActive dns "example.org." split_keys migration true valid_split

max_ttl-least_upper_bound_example :
    (86400 ≤ max_ttl zone)
    × All (λ r. r.ttl ≤ max_ttl zone) zone.rrsets
    × ((b : ℕ) → 86400 ≤ b → All (λ r. r.ttl ≤ b) zone.rrsets → max_ttl zone ≤ b)
max_ttl-least_upper_bound_example = max_ttl-least_upper_bound zone

backoff-bounded_example : (backoff 3 ≤ backoff 20) × (backoff 20 ≤ 256 * minute)
backoff-bounded_example = backoff-bounded 3 20 (omega arith)

abbrev ksk_material : DnssecData
ksk_material = record { flags = 257; protocol = 3; algorithm = 13; public_key = "ksk" }

abbrev zsk_material : DnssecData
zsk_material = record { flags = 256; protocol = 3; algorithm = 13; public_key = "zsk" }

same_material-Perm_example :
    (same_material (ksk_material ∷ zsk_material ∷ []) (zsk_material ∷ ksk_material ∷ []) ≡ true)
    ↔ Perm
        (map material_key (ksk_material ∷ zsk_material ∷ []))
        (map material_key (zsk_material ∷ ksk_material ∷ []))
same_material-Perm_example =
    same_material-Perm (ksk_material ∷ zsk_material ∷ []) (zsk_material ∷ ksk_material ∷ [])
