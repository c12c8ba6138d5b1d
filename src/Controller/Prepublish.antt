-- ===== src/Controller/Prepublish.antt =====
-- The first phase of a rotation: `prepublish`, `adoptOrCreate` and `recordCreateAttempt` of
-- internal/controller/controller.go.
use dnssec_keyrotation.Base.{
  String, Bool, true, false, not, ◌&&◌, ◌||◌, List, [], ◌∷◌, lookup, nat_eq, string_eq, ◌==◌,
  if◌then◌else◌,
}
use dnssec_keyrotation.Errors.{errorf, new_error, str, num}
use dnssec_keyrotation.Model.{
  Kind, is_split, is_ksk, kind_text, Phase, prepublish, wait_publish, is_zero, Time, Key, Zone,
  Workflow, State, DnssecData, put_workflow, workflow_key,
}
use dnssec_keyrotation.Api.{Controller, no_ds_evidence, DomainDnssec}
use dnssec_keyrotation.Exec.{
  M, pure, fail, lift, in_context, or_else, or_missing, now, create_key, domain_dnssec, observe,
  ◌>>=◌, ◌>>◌,
}
use dnssec_keyrotation.Store.{update}
use dnssec_keyrotation.Inventory.Keys.{by_id, exactly_one_active}
use dnssec_keyrotation.Inventory.Roles.{dnssec_data_for_key}
use dnssec_keyrotation.Inventory.Material.{same_material}
use dnssec_keyrotation.Controller.Moves.{transition_now, block, set, clear_evidence}
use dnssec_keyrotation.Controller.Candidates.{Wanted, candidates, check_created}

abbrev pub is_prepublish : Phase → Bool
is_prepublish prepublish = true
is_prepublish _ = false

-- When the creation for a slot was tried: the ZSK slot of a split migration, or the new key.
abbrev pub attempted_at : Workflow → Bool → Time
attempted_at w zsk_slot =
    if zsk_slot then w.new_zsk_create_attempted_at else w.new_key_create_attempted_at

abbrev pub mark_attempt : Workflow → Bool → Time → Workflow
mark_attempt w zsk_slot at =
    if zsk_slot
    then record w { new_zsk_create_attempted_at = at }
    else record w { new_key_create_attempted_at = at }

module _ (c : Controller) (zone : Zone) (w : Workflow) (want : Wanted) where
  -- the mutation of `recordCreateAttempt`
  unfoldable pub create_attempt_state : Time → State → M State
  create_attempt_state at s =
      let k = workflow_key w.zone w.kind in
      or_missing (lookup k s.workflows)
        (fail (new_error "workflow changed before key create intent could be persisted"))
        (λ current.
          if not (is_prepublish current.phase)
            || not (current.old_key_id == w.old_key_id)
            || not (current.new_key_id == w.new_key_id)
            || not (current.new_zsk_id == w.new_zsk_id)
          then fail (new_error "workflow changed before key create intent could be persisted")
          else if not (is_zero (attempted_at current want.zsk_slot))
          then fail (
              errorf "key create was already attempted at %s"
                (num (attempted_at current want.zsk_slot) ∷ []))
          else pure (put_workflow s k (mark_attempt current want.zsk_slot at)))

  unfoldable pub record_create_attempt : M (Unit {0})
  unfolding create_attempt_state
  record_create_attempt = do at ← now c; update c (create_attempt_state at)

  unfoldable pub create : M Key
  unfolding record_create_attempt
  create =
      if not (is_zero (attempted_at w want.zsk_slot))
      then fail (
          errorf "%s create was already attempted at %s; waiting for one exact read-back candidate"
            (str want.typ ∷ num (attempted_at w want.zsk_slot) ∷ []))
      else (do
        record_create_attempt
        created ← create_key c zone.id want.typ want.algorithm want.active
        lift (check_created c.dns zone.name w want created))

  unfoldable pub choose : List Key → M Key
  unfolding create
  choose [] = create
  choose (k ∷ []) = pure k
  choose _ = fail (errorf "multiple candidate %s keys" (str want.typ ∷ []))

  -- `adoptOrCreate`
  unfoldable pub adopt_or_create : List Key → M Key
  unfolding choose
  adopt_or_create keys = do found ← lift (candidates c.dns zone.name w want keys); choose found

-- the PowerDNS type of the key that is being replaced
abbrev pub old_type : Kind → String
old_type kind = if is_split kind then "csk" else kind_text kind

abbrev pub parent_mode_existing : String
parent_mode_existing = "existing"

abbrev pub parent_mode_initial : String
parent_mode_initial = "initial"

-- `len(x) == 0`
abbrev pub is_empty : {A : Type 0} → List A → Bool
is_empty [] = true
is_empty (_ ∷ _) = false

module _ (c : Controller) (zone : Zone) (keys : List Key) (w : Workflow) where
  record_old_key : M (Unit {0})
  record_old_key =
      or_else (exactly_one_active keys (old_type w.kind)) (block c zone.name w.kind)
        (λ old. transition_now c w prepublish (set (λ x. record x { old_key_id = old.id })))

  mode_of : DnssecData → DomainDnssec → M String
  mode_of old_data remote =
      if remote.enabled && same_material remote.material (old_data ∷ [])
      then pure parent_mode_existing
      else if not remote.enabled && is_empty remote.material
      then (do
        in_context "initial delegation requires proven parent DS absence"
            (observe c (no_ds_evidence zone.name))
        pure parent_mode_initial)
      else block c zone.name w.kind (
          new_error
            "InternetX DNSSEC state is neither exact active old CSK nor exact disabled-empty initial state")

  record_parent_mode : Key → M (Unit {0})
  unfolding mode_of
  record_parent_mode old = do
    old_data ← lift (dnssec_data_for_key c.dns zone.name old)
    remote ← domain_dnssec c zone.name
    mode ← mode_of old_data remote
    transition_now c w prepublish (set (λ x. record x { parent_mode = mode }))

  prepublish_split : Key → String → M (Unit {0})
  prepublish_split old algorithm =
      if w.new_key_id == 0
      then (do
        k ←
            adopt_or_create c zone w
              (record {
                typ = "ksk";
                algorithm = algorithm;
                old_id = old.id;
                active = true;
                allow_transitional_csk = true;
                zsk_slot = false;
              })
              keys
        transition_now c w prepublish (set (λ x. record x { new_key_id = k.id })))
      else if w.new_zsk_id == 0
      then (do
        k ←
            adopt_or_create c zone w
              (record {
                typ = "zsk";
                algorithm = algorithm;
                old_id = old.id;
                active = false;
                allow_transitional_csk = true;
                zsk_slot = true;
              })
              keys
        transition_now c w wait_publish
            (set (λ x. record x { new_zsk_id = k.id; evidence_at = 0 })))
      else transition_now c w wait_publish clear_evidence

  prepublish_single : Key → String → M (Unit {0})
  prepublish_single old algorithm =
      if w.new_key_id == 0
      then (do
        k ←
            adopt_or_create c zone w
              (record {
                typ = kind_text w.kind;
                algorithm = algorithm;
                old_id = old.id;
                active = is_ksk w.kind;
                allow_transitional_csk = false;
                zsk_slot = false;
              })
              keys
        transition_now c w wait_publish
            (set (λ x. record x { new_key_id = k.id; evidence_at = 0 })))
      else transition_now c w wait_publish clear_evidence

  prepublish_new : Key → M (Unit {0})
  unfolding record_parent_mode prepublish_split prepublish_single
  prepublish_new old =
      let algorithm = if old.algorithm == "" then c.cfg.rotation.algorithm else old.algorithm in
      if is_split w.kind
      then (if w.parent_mode == "" then record_parent_mode old else prepublish_split old algorithm)
      else prepublish_single old algorithm

  -- `prepublish`
  unfoldable pub run_prepublish : M (Unit {0})
  unfolding record_old_key prepublish_new
  run_prepublish =
      if w.old_key_id == 0
      then record_old_key
      else or_missing (by_id keys w.old_key_id)
          (block c zone.name w.kind (new_error "recorded old key missing")) prepublish_new
