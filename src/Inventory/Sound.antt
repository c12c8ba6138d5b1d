-- ===== src/Inventory/Sound.antt =====
-- What the inventory checks of internal/controller/controller.go guarantee when they pass.
use dnssec_keyrotation.Base.{
  String, Bool, true, false, not, ◌||◌, different, ◌≡◌, some, List, [], ◌∷◌, keep, nat_eq,
  string_eq, ◌==◌, if◌then◌else◌,
}
use dnssec_keyrotation.Errors.Ensures.{Ensures, Ensures-bind, Ensures-reject, Ensures-final, ok_inj}
use dnssec_keyrotation.Errors.{ok}
use dnssec_keyrotation.Model.{Key, Workflow, DnssecData, is_split, is_ksk, kind_text}
use dnssec_keyrotation.Api.{DnsLibrary}
use dnssec_keyrotation.Inventory.Keys.{by_id, is_active_of, exactly_one_active}
use dnssec_keyrotation.Inventory.Roles.{validated_key_role}
use dnssec_keyrotation.Inventory.Prepublish.{validate_prepublish_inventory, prepublish_third}
use dnssec_keyrotation.Inventory.Split.{validate_split_mutation_inventory}
use dnssec_keyrotation.Inventory.Passed.{
  required-ok, AllowsOnly, reject_unexpected-ok, recorded-Ensures, or_false, same_if, not-false,
  both_or, Ensures-by, companion-published, only-ok, split_ids, role-type, wrapping-ok,
}

module _ (dns : DnsLibrary) (zone : String) (keys : List Key) (w : Workflow) where
  -- The third key of a split migration: the recorded new ZSK, another than the two, in the role of a
  -- ZSK, of the algorithm of the old key, and not active.
  pub record IsNewZsk (old_data : DnssecData) (third : Key) : Type 0 where
    pub found : by_id keys w.new_zsk_id ≡ some third
    pub not_old : (w.old_key_id == w.new_zsk_id) ≡ false
    pub not_new : (w.new_key_id == w.new_zsk_id) ≡ false
    pub inactive : third.active ≡ false
    pub third_data : DnssecData
    pub role : validated_key_role dns zone third "zsk" true ≡ ok third_data
    pub one_algorithm : (third_data.algorithm == old_data.algorithm) ≡ true

  -- The third key that may be visible: that of a split migration, or else the one active key of the
  -- other role.
  abbrev pub IsThird : Bool → DnssecData → Key → Type 0
  IsThird true old_data third = IsNewZsk old_data third
  IsThird false old_data third =
      keep (is_active_of (if is_ksk w.kind then "zsk" else "ksk")) keys ≡ third ∷ []

  abbrev Third : DnssecData → Bool → Key → Type 0
  Third old_data split third = IsThird split old_data third × (third.published ≡ true)

  prepublish_third-Ensures :
      (old_data : DnssecData)
      → (is_split w.kind ≡ true
          → ((w.old_key_id == w.new_zsk_id) ≡ false) × ((w.new_key_id == w.new_zsk_id) ≡ false))
      → Ensures (Third old_data (is_split w.kind)) (prepublish_third dns zone keys w old_data)
  unfolding prepublish_third exactly_one_active
  prepublish_third-Ensures old_data ids =
      Ensures-by (Third old_data) (is_split w.kind)
        (λ split. Ensures-bind λ zsk zsk_e. Ensures-bind λ zsk_data data_e.
          Ensures-reject _ _ λ algorithms. Ensures-reject _ _ λ state. Ensures-final λ third e.
            let same = ok_inj e in
            let flags = or_false _ _ state in
            (
              record {
                found = rw⁻¹ same (required-ok _ _ zsk_e);
                not_old = (ids split).0;
                not_new = (ids split).1;
                inactive = rw⁻¹ same flags.0;
                third_data = zsk_data;
                role = rw⁻¹ same (wrapping-ok _ _ data_e);
                one_algorithm = not-false _ algorithms;
              },
              rw⁻¹ same (not-false _ flags.1),
            ))
        (λ _. Ensures-final λ third e.
          let companion = companion-published _ _ third e in (only-ok _ _ companion.0, companion.1))

  -- The keys before the switch: the old key signs in its role, the new one is visible in the state that
  -- its role wants, both have one algorithm, and at most a third key is visible beside them.
  pub record IsPrepublished : Type 0 where
    pub old : Key
    pub new : Key
    pub third : Key
    pub old_found : by_id keys w.old_key_id ≡ some old
    pub new_found : by_id keys w.new_key_id ≡ some new
    pub distinct : (w.old_key_id == w.new_key_id) ≡ false
    pub old_signs : (old.active ≡ true) × (old.published ≡ true)
    pub new_visible : new.published ≡ true
    pub old_type : (old.key_type == (if is_split w.kind then "csk" else kind_text w.kind)) ≡ true
    pub old_data : DnssecData
    pub new_data : DnssecData
    pub old_derived :
        validated_key_role dns zone old (if is_split w.kind then "csk" else kind_text w.kind) false
        ≡ ok old_data
    pub new_derived :
        validated_key_role dns zone new
          (if is_split w.kind then "ksk" else kind_text w.kind)
          (is_split w.kind)
        ≡ ok new_data
    pub one_algorithm : (new_data.algorithm == old_data.algorithm) ≡ true
    pub third_chosen : IsThird (is_split w.kind) old_data third
    pub third_visible : third.published ≡ true
    pub new_state : new.active ≡ (is_ksk w.kind || is_split w.kind)
    pub only : AllowsOnly (old.id ∷ new.id ∷ third.id ∷ []) keys

  Ensures-IsPrepublished :
      Ensures (λ _. IsPrepublished) (validate_prepublish_inventory dns zone keys w)
  unfolding validate_prepublish_inventory
  Ensures-IsPrepublished = Ensures-reject _ _ λ ids. Ensures-reject _ _ λ zsk_ids.
      Ensures-bind λ found found_e. Ensures-bind λ old_data old_e. Ensures-reject _ _ λ old_live.
        Ensures-bind λ new_data new_e. Ensures-reject _ _ λ algorithms.
          Ensures-reject _ _ λ new_live. Ensures-bind λ third third_e. Ensures-final λ done rest.
            record {
              old = found.0;
              new = found.1;
              third = third;
              old_found = ((recorded-Ensures keys w.old_key_id w.new_key_id).at found found_e).0;
              new_found = ((recorded-Ensures keys w.old_key_id w.new_key_id).at found found_e).1;
              distinct = (or_false _ (w.old_key_id == w.new_key_id) ids).1;
              old_signs = both_or _ _ old_live;
              new_visible = not-false _ (or_false _ _ new_live).1;
              old_type = (role-type dns zone found.0 _).at old_data (wrapping-ok _ _ old_e);
              old_data = old_data;
              new_data = new_data;
              old_derived = wrapping-ok _ _ old_e;
              new_derived = wrapping-ok _ _ new_e;
              one_algorithm = not-false _ algorithms;
              third_chosen =
                  ((prepublish_third-Ensures old_data (split_ids _ _ _ _ zsk_ids)).at third
                    third_e).0;
              third_visible =
                  ((prepublish_third-Ensures old_data (split_ids _ _ _ _ zsk_ids)).at third
                    third_e).1;
              new_state = same_if _ _ (or_false _ _ new_live).0;
              only = reject_unexpected-ok _ keys rest;
            }

  -- A prepublish inventory that passes has the recorded keys, distinct, the old one active and published, of
  -- the type that is replaced, the new one published and active just where its kind wants it, both
  -- with the data of their roles and one algorithm; a third key is published, which is the recorded new
  -- ZSK of a split migration, another than the two, inactive and of the same algorithm, or else the
  -- one active key of the other role; and no other key is active or published.
  pub validate_prepublish-IsPrepublished :
      validate_prepublish_inventory dns zone keys w ≡ ok tt → IsPrepublished
  validate_prepublish-IsPrepublished = (Ensures-IsPrepublished).at tt

module _ (dns : DnsLibrary) (zone : String) (keys : List Key) (w : Workflow)
    (old_active : Bool) where
  -- The keys of a split migration after the new signer is active: the new KSK and ZSK sign, the old CSK
  -- signs or not as wanted, and no fourth key is visible.
  pub record IsSplitActive : Type 0 where
    pub old : Key
    pub new_ksk : Key
    pub new_zsk : Key
    pub old_found : by_id keys w.old_key_id ≡ some old
    pub ksk_found : by_id keys w.new_key_id ≡ some new_ksk
    pub zsk_found : by_id keys w.new_zsk_id ≡ some new_zsk
    pub old_state : (old.active ≡ old_active) × (old.published ≡ true)
    pub ksk_signs : (new_ksk.active ≡ true) × (new_ksk.published ≡ true)
    pub zsk_signs : (new_zsk.active ≡ true) × (new_zsk.published ≡ true)
    pub only : AllowsOnly (old.id ∷ new_ksk.id ∷ new_zsk.id ∷ []) keys

  Ensures-IsSplitActive :
      Ensures (λ _. IsSplitActive) (validate_split_mutation_inventory dns zone keys w old_active)
  unfolding validate_split_mutation_inventory
  Ensures-IsSplitActive = Ensures-reject _ _ λ ids. Ensures-bind λ found found_e.
      Ensures-bind λ zsk zsk_e. Ensures-bind λ old_data old_e. Ensures-bind λ ksk_data ksk_e.
        Ensures-bind λ zsk_data zsk_data_e. Ensures-reject _ _ λ algorithms.
          Ensures-reject _ _ λ live. Ensures-final λ done rest.
            let ids = (recorded-Ensures keys w.old_key_id w.new_key_id).at found found_e in
            let zsk_visible = or_false _ (not zsk.published) live in
            let zsk_active = or_false _ (not zsk.active) zsk_visible.0 in
            let ksk_visible = or_false _ (not found.1.published) zsk_active.0 in
            let ksk_active = or_false _ (not found.1.active) ksk_visible.0 in
            let old_live = or_false (different found.0.active old_active) _ ksk_active.0 in
            record {
              old = found.0;
              new_ksk = found.1;
              new_zsk = zsk;
              old_found = ids.0;
              ksk_found = ids.1;
              zsk_found = required-ok _ _ zsk_e;
              old_state = (same_if _ _ old_live.0, not-false _ old_live.1);
              ksk_signs = (not-false _ ksk_active.1, not-false _ ksk_visible.1);
              zsk_signs = (not-false _ zsk_active.1, not-false _ zsk_visible.1);
              only = reject_unexpected-ok _ keys rest;
            }

  -- A split inventory that passes has the three recorded keys, the new KSK and ZSK active and published,
  -- the old key published and active just as the caller wants it, and no other key active or
  -- published.
  pub validate_split-IsSplitActive :
      validate_split_mutation_inventory dns zone keys w old_active ≡ ok tt → IsSplitActive
  validate_split-IsSplitActive = Ensures-IsSplitActive.at tt
