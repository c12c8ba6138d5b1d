-- ===== src/Inventory/Split.antt =====
-- `validateSplitMutationInventory` of internal/controller/controller.go: the keys of a split
-- migration after the new ZSK is active, with the old CSK still active or not.
use dnssec_keyrotation.Base.{
  different, String, Bool, true, false, not, ◌||◌, List, [], ◌∷◌, nat_eq, ◌==◌,
}
use dnssec_keyrotation.Errors.{
  Result, errorf, new_error, flag, num, ◌>>=◌, ◌>>◌, reject_if, wrapping,
}
use dnssec_keyrotation.Model.{Key, Workflow, is_split}
use dnssec_keyrotation.Api.{DnsLibrary}
use dnssec_keyrotation.Inventory.Keys.{by_id, required, recorded_keys, reject_unexpected}
use dnssec_keyrotation.Inventory.Roles.{validated_key_role}

module _ (dns : DnsLibrary) (zone : String) (keys : List Key) (w : Workflow) where
  unfoldable pub validate_split_mutation_inventory : Bool → Result (Unit {0})
  unfolding recorded_keys
  validate_split_mutation_inventory old_active = do
    reject_if
        (not (is_split w.kind)
          || w.old_key_id == 0
          || w.new_key_id == 0
          || w.new_zsk_id == 0
          || w.old_key_id == w.new_key_id
          || w.old_key_id == w.new_zsk_id
          || w.new_key_id == w.new_zsk_id)
        (new_error "active split workflow must record three distinct key IDs")
    (old, new_ksk) ← recorded_keys keys w.old_key_id w.new_key_id
    new_zsk ←
        required (by_id keys w.new_zsk_id)
          (errorf "recorded new ZSK %d missing" (num w.new_zsk_id ∷ []))
    old_data ←
        wrapping "recorded old CSK effective role" (validated_key_role dns zone old "ksk" true)
    ksk_data ← wrapping "recorded new KSK role" (validated_key_role dns zone new_ksk "ksk" true)
    zsk_data ← wrapping "recorded new ZSK role" (validated_key_role dns zone new_zsk "zsk" true)
    reject_if
        (not (old_data.algorithm == ksk_data.algorithm)
          || not (old_data.algorithm == zsk_data.algorithm))
        (new_error "active split DNSKEY algorithms differ")
    reject_if
        (different old.active old_active
          || not old.published
          || not new_ksk.active
          || not new_ksk.published
          || not new_zsk.active
          || not new_zsk.published)
        (errorf "split keys do not match expected old-active=%t post-activation state"
          (flag old_active ∷ []))
    reject_unexpected (old.id ∷ new_ksk.id ∷ new_zsk.id ∷ []) keys

  -- `validateActiveSplitInventory`
  unfoldable pub validate_active_split_inventory : Result (Unit {0})
  unfolding validate_split_mutation_inventory
  validate_active_split_inventory = validate_split_mutation_inventory true

  -- `validateDeactivatedSplitInventory`
  unfoldable pub validate_deactivated_split_inventory : Result (Unit {0})
  unfolding validate_split_mutation_inventory
  validate_deactivated_split_inventory = validate_split_mutation_inventory false
