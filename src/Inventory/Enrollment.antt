-- ===== src/Inventory/Enrollment.antt =====
-- `validateEnrollmentInventory` and `dnssecPayloadHash` of internal/controller/controller.go.
use dnssec_keyrotation.Base.{
  ℕ, String, Bool, false, not, ◌&&◌, ◌||◌, List, [], ◌∷◌, nat_eq, string_eq, ◌==◌, if◌then◌else◌,
}
use dnssec_keyrotation.Base.Text.{trim_space, equal_fold}
use dnssec_keyrotation.Errors.{
  Result, ok, err, Error, errorf, new_error, str, num, ◌>>=◌, ◌>>◌, reject_if,
}
use dnssec_keyrotation.Model.{Key, DnssecData}
use dnssec_keyrotation.Api.{Controller}
use dnssec_keyrotation.Inventory.Roles.{validated_key_role, validate_algorithm_label}

pub data Place : Type 0 where
  unused ksk_place zsk_place : Place

-- What the loop does with one key.
unfoldable pub place_of : Key → Result Place
place_of k =
    if not k.active && not k.published
    then ok unused
    else if not k.active || not k.published
    then err (errorf "key %d is active/published only partially" (num k.id ∷ []))
    else if k.key_type == "ksk"
    then ok ksk_place
    else if k.key_type == "zsk"
    then ok zsk_place
    else err (errorf "unexpected active or published key %d (%s)" (num k.id ∷ str k.key_type ∷ []))

abbrev add_key : Place → Key → List Key × List Key → List Key × List Key
add_key unused k found = found
add_key ksk_place k (ksks, zsks) = (k ∷ ksks, zsks)
add_key zsk_place k (ksks, zsks) = (ksks, k ∷ zsks)

-- The loop over the keys: the live KSKs and the live ZSKs.
unfoldable pub live_keys : List Key → Result (List Key × List Key)
unfolding place_of
live_keys [] = ok ([], [])
live_keys (k ∷ keys) = do place ← place_of k; found ← live_keys keys; ok (add_key place k found)

abbrev no_pair : Error
no_pair = new_error "expected exactly one distinct active/published KSK and ZSK"

unfoldable pub one_pair : List Key × List Key → Result (Key × Key)
one_pair (k ∷ [], z ∷ []) = if k.id == z.id then err no_pair else ok (k, z)
one_pair _ = err no_pair

unfoldable pub is_allowed : List String → String → Bool
is_allowed [] algorithm = false
is_allowed (label ∷ rest) algorithm =
    equal_fold (trim_space label) algorithm || is_allowed rest algorithm

-- A recorded value that is set and differs from the live one.
abbrev changed : ℕ → ℕ → Bool
changed expected actual = not (expected == 0) && not (actual == expected)

module _ (c : Controller) where
  -- the fingerprint of the public keyset
  unfoldable pub fingerprint_of : Key → DnssecData → Key → DnssecData → String
  fingerprint_of ksk kdata zsk zdata = c.digest "ksk|%d|%d|%d|%s|zsk|%d|%d|%d|%s" (
      num ksk.id
      ∷ num kdata.protocol
      ∷ num kdata.algorithm
      ∷ str kdata.public_key
      ∷ num zsk.id
      ∷ num zdata.protocol
      ∷ num zdata.algorithm
      ∷ str zdata.public_key
      ∷ [])

  unfoldable pub validate_enrollment_inventory :
      String → List Key → ℕ → ℕ → String → Result (Key × Key × String)
  unfolding live_keys one_pair is_allowed fingerprint_of
  validate_enrollment_inventory zone keys expected_ksk expected_zsk expected_fingerprint = do
    found ← live_keys keys
    (ksk, zsk) ← one_pair found
    reject_if (changed expected_ksk ksk.id)
        (errorf "KSK id changed from %d to %d" (num expected_ksk ∷ num ksk.id ∷ []))
    reject_if (changed expected_zsk zsk.id)
        (errorf "ZSK id changed from %d to %d" (num expected_zsk ∷ num zsk.id ∷ []))
    kdata ← validated_key_role c.dns zone ksk "ksk" false
    zdata ← validated_key_role c.dns zone zsk "zsk" false
    reject_if (not (kdata.algorithm == zdata.algorithm)) (new_error "KSK and ZSK algorithms differ")
    validate_algorithm_label c.dns ksk.algorithm kdata.algorithm
    validate_algorithm_label c.dns zsk.algorithm zdata.algorithm
    reject_if (not (is_allowed c.cfg.enrollment.allowed_algorithms ksk.algorithm))
        (errorf "algorithm %q is not allowed for automatic enrollment" (str ksk.algorithm ∷ []))
    let fingerprint = fingerprint_of ksk kdata zsk zdata
    reject_if (not (expected_fingerprint == "") && not (fingerprint == expected_fingerprint))
        (new_error "public keyset fingerprint changed")
    ok (ksk, zsk, fingerprint)

  -- `dnssecPayloadHash`
  unfoldable pub dnssec_payload_hash : DnssecData → String
  dnssec_payload_hash d =
      c.digest "%d|%d|%d|%s"
        (num d.flags ∷ num d.protocol ∷ num d.algorithm ∷ str d.public_key ∷ [])
