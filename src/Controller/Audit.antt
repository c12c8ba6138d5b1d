-- ===== src/Controller/Audit.antt =====
-- `Audit` of internal/controller/controller.go: the material of the registrar against the keys.
use dnssec_keyrotation.Base.{
  String, Bool, false, not, ◌&&◌, ◌||◌, Option, none, some, List, [], ◌∷◌, sort_by, if◌then◌else◌,
}
use dnssec_keyrotation.Base.Text.{text_le}
use dnssec_keyrotation.Errors.{Error, Result, new_error}
use dnssec_keyrotation.Model.{Key, Zone, DnssecData}
use dnssec_keyrotation.Api.{Controller}
use dnssec_keyrotation.Exec.{M, pure, attempt, or_else, list_zones, list_keys, domain_dnssec, ◌>>=◌}
use dnssec_keyrotation.Inventory.Keys.{Scheme, key_scheme, is_csk_scheme, exactly_one_active}
use dnssec_keyrotation.Inventory.Roles.{dnssec_data_for_key}
use dnssec_keyrotation.Inventory.Material.{same_material}
use dnssec_keyrotation.Controller.Scope.{selected}

-- `AuditResult`; the scheme is `none` where the keys are not known
pub record AuditResult : Type 0 where
  pub zone : String
  pub scheme : Option Scheme
  pub registrar_match : Bool
  pub error : Option Error

abbrev pub failed_audit : Zone → Option Scheme → Error → AuditResult
failed_audit z scheme e = record {
  zone = z.name;
  scheme = scheme;
  registrar_match = false;
  error = some e;
}

-- the entry of a zone whose expected and registered material is known
abbrev pub compared_audit : Zone → Scheme → Bool → AuditResult
compared_audit z scheme matches = record {
  zone = z.name;
  scheme = some scheme;
  registrar_match = matches;
  error =
      if not matches
      then some (new_error "InternetX material differs from active local KSK/CSK")
      else none;
}

module _ (c : Controller) where
  -- the material of the one key that the parent must have
  unfoldable pub expected_material : Zone → List Key → Result DnssecData
  unfolding key_scheme exactly_one_active dnssec_data_for_key
  expected_material z keys =
      let typ = if is_csk_scheme (key_scheme keys) then "csk" else "ksk" in
      elim (exactly_one_active keys typ) [
        | Result.ok key ↦ dnssec_data_for_key c.dns z.name key
        | Result.err e ↦ Result.err e
      ]

  -- an entry with the keys of the zone
  unfoldable pub audit_keys : Zone → List Key → M AuditResult
  unfolding expected_material same_material
  audit_keys z keys =
      let scheme = key_scheme keys in
      or_else (expected_material z keys) (λ e. pure (failed_audit z (some scheme) e))
        λ expected. do
          outcome ← attempt (domain_dnssec c z.name)
          or_else outcome (λ e. pure (failed_audit z (some scheme) e))
              λ remote. pure (
                compared_audit z scheme
                  (remote.enabled && same_material remote.material (expected ∷ [])))

  -- the entry of one zone
  unfoldable pub audit_zone : Zone → M AuditResult
  unfolding audit_keys
  audit_zone z = do
    outcome ← attempt (list_keys c z.id)
    or_else outcome (λ e. pure (failed_audit z none e)) (audit_keys z)

  -- the loop over the zones
  unfoldable pub audit_zones : List Zone → M (List AuditResult)
  unfolding audit_zone selected
  audit_zones [] = pure []
  audit_zones (z ∷ zones) =
      let later = audit_zones zones in
      if not z.dnssec || not (selected c.cfg z.name)
      then later
      else (do entry ← audit_zone z; rest ← later; pure (entry ∷ rest))

  -- the method `Audit`
  unfoldable pub audit : M (List AuditResult)
  unfolding audit_zones sort_by
  audit = do
    zones ← list_zones c
    entries ← audit_zones zones
    pure (sort_by (λ a b. text_le a.zone b.zone) entries)
