-- ===== src/Inventory/Prepublish.antt =====
-- `validatePrepublishInventory` of internal/controller/controller.go: the keys before the switch.
use dnssec_keyrotation.Base.{
  different, String, true, false, not, ◌&&◌, ◌||◌, List, [], ◌∷◌, nat_eq, ◌==◌, if◌then◌else◌,
}
use dnssec_keyrotation.Errors.{
  Result, ok, err, errorf, new_error, str, num, ◌>>=◌, ◌>>◌, reject_if, wrapping,
}
use dnssec_keyrotation.Model.{Key, Workflow, DnssecData, is_split, is_ksk, kind_text}
use dnssec_keyrotation.Api.{DnsLibrary}
use dnssec_keyrotation.Inventory.Keys.{
  by_id, required, recorded_keys, exactly_one_active, reject_unexpected,
}
use dnssec_keyrotation.Inventory.Roles.{validated_key_role}

abbrev pub companion_of : String → Result Key → Result Key
companion_of typ (ok k) =
    if k.published
    then ok k
    else err (errorf "expected one active and published companion %s" (str typ ∷ []))
companion_of typ (err e) =
    err (errorf "expected one active and published companion %s" (str typ ∷ []))

module _ (dns : DnsLibrary) (zone : String) (keys : List Key) (w : Workflow) where
  -- The third key that may be visible: the new ZSK of a split migration, or the companion that is
  -- not being rotated.
  unfoldable pub prepublish_third : DnssecData → Result Key
  prepublish_third old_data =
      if is_split w.kind
      then (do
        zsk ← required (by_id keys w.new_zsk_id) (new_error "recorded new ZSK missing")
        zsk_data ← wrapping "recorded new ZSK role" (validated_key_role dns zone zsk "zsk" true)
        reject_if (not (zsk_data.algorithm == old_data.algorithm)) (
            errorf "recorded new ZSK algorithm %d differs from old key algorithm %d"
              (num zsk_data.algorithm ∷ num old_data.algorithm ∷ []))
        reject_if (zsk.active || not zsk.published)
            (new_error "recorded new ZSK is not inactive and published")
        ok zsk)
      else (let typ = if is_ksk w.kind then "zsk" else "ksk" in
          companion_of typ (exactly_one_active keys typ))

  unfoldable pub validate_prepublish_inventory : Result (Unit {0})
  unfolding prepublish_third recorded_keys
  validate_prepublish_inventory = do
    reject_if (w.old_key_id == 0 || w.new_key_id == 0 || w.old_key_id == w.new_key_id)
        (new_error "recorded old and new key IDs must be non-zero and distinct")
    reject_if
        (is_split w.kind
          && (w.new_zsk_id == 0 || w.old_key_id == w.new_zsk_id || w.new_key_id == w.new_zsk_id))
        (new_error "split workflow must record three distinct key IDs")
    (old, new) ← recorded_keys keys w.old_key_id w.new_key_id
    let want_old_type = if is_split w.kind then "csk" else kind_text w.kind
    old_data ←
        wrapping "recorded old key role" (validated_key_role dns zone old want_old_type false)
    reject_if (not old.active || not old.published)
        (errorf "recorded old %s is not active and published" (str want_old_type ∷ []))
    let want_new_type = if is_split w.kind then "ksk" else kind_text w.kind
    let want_new_active = is_ksk w.kind || is_split w.kind
    new_data ←
        wrapping "recorded new key role"
          (validated_key_role dns zone new want_new_type (is_split w.kind))
    reject_if (not (new_data.algorithm == old_data.algorithm)) (
        errorf "recorded new key algorithm %d differs from old key algorithm %d"
          (num new_data.algorithm ∷ num old_data.algorithm ∷ []))
    reject_if (different new.active want_new_active || not new.published)
        (errorf "recorded new %s has unexpected active/published state" (str want_new_type ∷ []))
    third ← prepublish_third old_data
    reject_unexpected (old.id ∷ new.id ∷ third.id ∷ []) keys
