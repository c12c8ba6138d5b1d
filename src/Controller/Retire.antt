-- ===== src/Controller/Retire.antt =====
-- The end of a rotation: `waitRetire` and `deleteOld` of internal/controller/controller.go.
use dnssec_keyrotation.Base.{not, ◌||◌, Option, none, some, List, [], ◌∷◌, if◌then◌else◌}
use dnssec_keyrotation.Errors.{new_error}
use dnssec_keyrotation.Model.{is_split, is_ksk, is_zsk, delete_old, Key, Zone, Workflow}
use dnssec_keyrotation.Api.{
  Controller, dnskey_evidence, ds_evidence, authoritative_ds_evidence, rrsig_by, dnskey_rrsig_by,
}
use dnssec_keyrotation.Exec.{
  M, pure, lift, in_context, or_else, or_missing, delete_key, observe, domain_dnssec, ◌>>=◌, ◌>>◌,
}
use dnssec_keyrotation.Inventory.Keys.{by_id, recorded_keys}
use dnssec_keyrotation.Inventory.Roles.{dnssec_data_for_key}
use dnssec_keyrotation.Inventory.Retirement.{retirement_inventory}
use dnssec_keyrotation.Controller.Moves.{transition_now, block, unchanged, complete}
use dnssec_keyrotation.Controller.Signature.{is_live}
use dnssec_keyrotation.Controller.Parent.{is_exactly}

abbrev pub to_list : Option Key → List Key
to_list none = []
to_list (some k) = k ∷ []

module _ (c : Controller) (zone : Zone) (keys : List Key) (w : Workflow) where
  retire_with : Key → M (Unit {0})
  retire_with signer = do
    observe c (rrsig_by zone.name signer)
    transition_now c w delete_old unchanged

  -- `waitRetire`
  unfoldable pub run_wait_retire : M (Unit {0})
  unfolding retire_with
  run_wait_retire = do
    found ← lift (recorded_keys keys w.old_key_id w.new_key_id)
    or_missing (if is_split w.kind then by_id keys w.new_zsk_id else some found.1)
        (block c zone.name w.kind (new_error "new ZSK missing at retirement")) retire_with

  -- the DNSKEYs that must be visible, of a ZSK or KSK rotation; a split migration lists its own
  unfoldable pub inventory : M (List Key)
  inventory =
      if is_zsk w.kind || is_ksk w.kind
      then or_else (retirement_inventory c.dns zone.name keys w) (block c zone.name w.kind) pure
      else pure []

  -- what the parent must show of a new KSK
  unfoldable pub parent_evidence : Key → M (Unit {0})
  parent_evidence new =
      if is_ksk w.kind || is_split w.kind
      then (do
        observe c (dnskey_rrsig_by zone.name new)
        observe c (ds_evidence zone.name (new ∷ []))
        observe c (authoritative_ds_evidence zone.name (new ∷ []))
        pure tt)
      else pure tt

  unfoldable pub split_zsk : Key → Option Key → Key → M (List Key)
  split_zsk new old z =
      if not (is_live z)
      then block c zone.name w.kind (new_error "active and published replacement ZSK missing")
      else (do
        observe c (rrsig_by zone.name z)
        remote ← domain_dnssec c zone.name
        expected ← lift (dnssec_data_for_key c.dns zone.name new)
        if not (is_exactly remote expected)
            then block c zone.name w.kind
                (new_error "InternetX material is not exact new-only KSK before old-key deletion")
            else pure (new ∷ z ∷ to_list old))

  unfoldable pub split_retirement : Key → Option Key → M (List Key)
  unfolding split_zsk
  split_retirement new old =
      or_missing (by_id keys w.new_zsk_id)
        (block c zone.name w.kind (new_error "active and published replacement ZSK missing"))
        (split_zsk new old)

  -- the `switch` on the kind
  unfoldable pub kind_evidence : Key → Option Key → List Key → M (List Key)
  unfolding split_retirement
  kind_evidence new old listed =
      if is_split w.kind
      then split_retirement new old
      else if is_zsk w.kind
      then (do observe c (rrsig_by zone.name new); pure listed)
      else pure listed

  unfoldable pub delete_recorded : Option Key → M (Unit {0})
  delete_recorded old = or_missing old (complete c w) λ k.
      if k.active
      then block c zone.name w.kind (new_error "refusing to delete active old key")
      else (do delete_key c zone.id k.id; complete c w)

  unfoldable pub delete_with : Key → Option Key → M (Unit {0})
  unfolding inventory parent_evidence kind_evidence delete_recorded
  delete_with new old = do
    listed ← inventory
    parent_evidence new
    dnskeys ← kind_evidence new old listed
    in_context "replacement DNSKEY evidence missing before deletion"
        (observe c (dnskey_evidence zone.name dnskeys))
    delete_recorded old

  unfoldable pub replacement : Key → M (Unit {0})
  unfolding delete_with
  replacement new =
      if not (is_live new)
      then block c zone.name w.kind (new_error "active and published replacement key missing")
      else delete_with new (by_id keys w.old_key_id)

  -- `deleteOld`
  unfoldable pub run_delete_old : M (Unit {0})
  unfolding replacement
  run_delete_old =
      or_missing (by_id keys w.new_key_id)
        (block c zone.name w.kind (new_error "active and published replacement key missing"))
        replacement
