-- ===== src/Inventory/Retirement.antt =====
-- `retirementInventory` of internal/controller/controller.go: the DNSKEYs that must be visible
-- before the old key of a ZSK or KSK rotation is deleted.
use dnssec_keyrotation.Base.{
  ℕ, String, false, not, ◌&&◌, ◌||◌, Option, none, some, List, [], ◌∷◌, nat_eq, ◌==◌, contains, map,
  if◌then◌else◌,
}
use dnssec_keyrotation.Errors.{
  Result, ok, err, Error, errorf, new_error, str, num, ◌>>=◌, ◌>>◌, reject_if,
}
use dnssec_keyrotation.Model.{Key, Workflow, DnssecData, is_ksk, kind_text}
use dnssec_keyrotation.Api.{DnsLibrary}
use dnssec_keyrotation.Inventory.Keys.{by_id, exactly_one_active}
use dnssec_keyrotation.Inventory.Roles.{validated_key_role}

-- The closing loop, with the ids seen so far.
unfoldable pub reject_duplicates : List ℕ → List ℕ → List Key → Result (Unit {0})
unfolding contains
reject_duplicates allowed seen [] = ok tt
reject_duplicates allowed seen (k ∷ keys) =
    let rest = reject_duplicates allowed (k.id ∷ seen) keys in
    if contains seen k.id || ((k.active || k.published) && not (contains allowed k.id))
    then err (errorf "unexpected or duplicate key %d at retirement" (num k.id ∷ []))
    else rest

abbrev no_companion : String → Error
no_companion role =
    errorf "retirement requires one distinct active and published companion %s" (str role ∷ [])

abbrev bad_old : Error
bad_old =
    new_error "recorded old key has unexpected retirement role, algorithm, or publication state"

abbrev live_key : Option Key → Result Key
live_key none = err (new_error "active and published replacement key missing")
live_key (some k) =
    if not k.active || not k.published
    then err (new_error "active and published replacement key missing")
    else ok k

abbrev companion_key : Workflow → String → Result Key → Result Key
companion_key w role (err e) = err (no_companion role)
companion_key w role (ok k) =
    if not k.published || k.id == w.old_key_id || k.id == w.new_key_id
    then err (no_companion role)
    else ok k

-- The old key, while it is there, is an inactive and published key of the same algorithm.
abbrev old_state : Key → DnssecData → Result DnssecData → Result (List Key)
old_state old replacement_data (err e) = err bad_old
old_state old replacement_data (ok old_data) =
    if old.active || not old.published || not (old_data.algorithm == replacement_data.algorithm)
    then err bad_old
    else ok (old ∷ [])

module _ (dns : DnsLibrary) (zone : String) (keys : List Key) (w : Workflow) where
  unfoldable pub retiring_key : DnssecData → Option Key → Result (List Key)
  retiring_key replacement_data none = ok []
  retiring_key replacement_data (some old) =
      old_state old replacement_data (validated_key_role dns zone old (kind_text w.kind) false)

  unfoldable pub retirement_inventory : Result (List Key)
  unfolding retiring_key reject_duplicates
  retirement_inventory = do
    reject_if (w.old_key_id == 0 || w.new_key_id == 0 || w.old_key_id == w.new_key_id)
        (new_error "retirement requires distinct recorded old and new key IDs")
    replacement ← live_key (by_id keys w.new_key_id)
    replacement_data ← validated_key_role dns zone replacement (kind_text w.kind) false
    let companion_role = if is_ksk w.kind then "zsk" else "ksk"
    companion ← companion_key w companion_role (exactly_one_active keys companion_role)
    _ ← validated_key_role dns zone companion companion_role false
    retiring ← retiring_key replacement_data (by_id keys w.old_key_id)
    let expected = replacement ∷ companion ∷ retiring
    reject_duplicates (map (λ k. k.id) expected) [] keys
    ok expected
