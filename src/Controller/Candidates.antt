-- ===== src/Controller/Candidates.antt =====
-- The tests of `adoptOrCreate` of internal/controller/controller.go on a key: one that the inventory
-- already has, and one that PowerDNS has just created.
use dnssec_keyrotation.Base.{
  ℕ, String, Bool, true, false, not, ◌&&◌, ◌||◌, different, List, [], ◌∷◌, nat_eq, string_eq, ◌==◌,
  if◌then◌else◌,
}
use dnssec_keyrotation.Base.Text.{equal_fold}
use dnssec_keyrotation.Errors.{
  Arg, Result, ok, err, errorf, str, num, reject_if, wrapf, ◌>>=◌, ◌>>◌,
}
use dnssec_keyrotation.Model.{Key, Workflow, DnssecData}
use dnssec_keyrotation.Api.{DnsLibrary}
use dnssec_keyrotation.Inventory.Roles.{validated_key_role, validate_algorithm_label}

-- What a new key must be: the arguments of `adoptOrCreate`.
pub record Wanted : Type 0 where
  pub typ : String
  pub algorithm : String
  pub old_id : ℕ
  pub active : Bool
  pub allow_transitional_csk : Bool
  pub zsk_slot : Bool

-- The key fills the other slot of the workflow.
abbrev pub other_slot : Workflow → Bool → ℕ → Bool
other_slot w zsk_slot id =
    (zsk_slot && id == w.new_key_id)
    || (not zsk_slot && id == w.new_zsk_id && not (w.new_zsk_id == 0))

abbrev wrapping_with {ℓ} : {A : Type ℓ} → String → List Arg → Result A → Result A
wrapping_with context args (ok a) = ok a
wrapping_with context args (err e) = err (wrapf context args e)

module _ (dns : DnsLibrary) (zone : String) (w : Workflow) (want : Wanted) where
  abbrev label_matches : Key → Bool
  label_matches k = not (k.algorithm == "") && equal_fold k.algorithm want.algorithm

  abbrev role_of : Key → Result DnssecData
  role_of k = validated_key_role dns zone k want.typ want.allow_transitional_csk

  unfoldable pub checked_candidate : Key → Result Bool
  checked_candidate k = do
    reject_if (not (label_matches k)) (
        errorf "candidate %s key %d has algorithm %q, want %q"
          (str want.typ ∷ num k.id ∷ str k.algorithm ∷ str want.algorithm ∷ []))
    d ← wrapping_with "candidate %s key" (str want.typ ∷ []) (role_of k)
    wrapping_with "candidate %s key %d" (str want.typ ∷ num k.id ∷ [])
        (validate_algorithm_label dns k.algorithm d.algorithm)
    ok true

  -- The body of the loop over the inventory: the key is passed over, a candidate, or an error.
  unfoldable pub is_candidate : Key → Result Bool
  unfolding checked_candidate
  is_candidate k =
      if k.id == want.old_id || different k.active want.active || not k.published
      then ok false
      else if other_slot w want.zsk_slot k.id
      then err (
          errorf "candidate %s key %d reuses the other replacement slot"
            (str want.typ ∷ num k.id ∷ []))
      else if not (k.key_type == want.typ)
          && (not want.allow_transitional_csk || not (k.key_type == "csk"))
      then ok false
      else checked_candidate k

  -- The loop: the candidates in order, or the first error.
  unfoldable pub candidates : List Key → Result (List Key)
  unfolding is_candidate
  candidates [] = ok []
  candidates (k ∷ keys) = do
    fits ← is_candidate k
    rest ← candidates keys
    ok (if fits then k ∷ rest else rest)

  -- the tests on the reply of `CreateKey`
  unfoldable pub check_created : Key → Result Key
  check_created k = do
    reject_if
        (k.id == 0
          || k.id == want.old_id
          || other_slot w want.zsk_slot k.id
          || different k.active want.active
          || not k.published)
        (errorf "created %s response has invalid id or active/published state" (str want.typ ∷ []))
    reject_if (not (label_matches k)) (
        errorf "created %s response has algorithm %q, want %q"
          (str want.typ ∷ str k.algorithm ∷ str want.algorithm ∷ []))
    d ← wrapping_with "created %s response" (str want.typ ∷ []) (role_of k)
    wrapping_with "created %s response" (str want.typ ∷ [])
        (validate_algorithm_label dns k.algorithm d.algorithm)
    ok k
