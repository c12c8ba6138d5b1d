-- ===== src/Inventory/Keys.antt =====
-- Choosing keys of an inventory: `keyScheme`, `exactlyOneActive`, `byID`, `recordedKeys` and
-- `publishedKeys` of internal/controller/controller.go.
use dnssec_keyrotation.Base.{
  ℕ, suc, String, Bool, true, false, not, ◌&&◌, ◌||◌, Option, none, some, List, [], ◌∷◌, keep,
  length, nat_eq, string_eq, ◌==◌, contains, if◌then◌else◌,
}
use dnssec_keyrotation.Errors.{Error, Result, ok, err, errorf, str, num, ◌>>=◌}
use dnssec_keyrotation.Model.{Key}

pub data Scheme : Type 0 where
  split_scheme csk_scheme unknown_scheme : Scheme

-- the counter `a[typ]` of `keyScheme`
unfoldable pub active_count : String → List Key → ℕ
active_count typ [] = 0
active_count typ (k ∷ keys) =
    let rest = active_count typ keys in if k.active && k.key_type == typ then suc rest else rest

-- `keyScheme`
unfoldable pub key_scheme : List Key → Scheme
unfolding active_count
key_scheme keys =
    let ksks = active_count "ksk" keys in
    let zsks = active_count "zsk" keys in
    let csks = active_count "csk" keys in
    if ksks == 1 && zsks == 1 && csks == 0
    then split_scheme
    else if csks == 1 && ksks == 0 && zsks == 0
    then csk_scheme
    else unknown_scheme

abbrev pub is_csk_scheme : Scheme → Bool
is_csk_scheme csk_scheme = true
is_csk_scheme _ = false

abbrev pub is_split_scheme : Scheme → Bool
is_split_scheme split_scheme = true
is_split_scheme _ = false

abbrev pub only : String → List Key → Result Key
only typ (k ∷ []) = ok k
only typ keys = err (errorf "expected one active %s, got %d" (str typ ∷ num (length keys) ∷ []))

abbrev pub is_active_of : String → Key → Bool
is_active_of typ k = k.key_type == typ && k.active

-- `exactlyOneActive`
unfoldable pub exactly_one_active : List Key → String → Result Key
unfolding keep
exactly_one_active keys typ = only typ (keep (is_active_of typ) keys)

-- `byID`
unfoldable pub by_id : List Key → ℕ → Option Key
by_id [] id = none
by_id (k ∷ keys) id = if k.id == id then some k else by_id keys id

-- `!ok` after `byID`
abbrev pub is_missing : Option Key → Bool
is_missing none = true
is_missing (some k) = false

-- A missing key as an error.
abbrev pub required : Option Key → Error → Result Key
required none missing = err missing
required (some k) missing = ok k

-- `recordedKeys`
unfoldable pub recorded_keys : List Key → ℕ → ℕ → Result (Key × Key)
unfolding by_id
recorded_keys keys old_id new_id = do
  old ← required (by_id keys old_id) (errorf "recorded old key %d missing" (num old_id ∷ []))
  new ← required (by_id keys new_id) (errorf "recorded new key %d missing" (num new_id ∷ []))
  ok (old, new)

-- `publishedKeys`
unfoldable pub published_keys : List Key → List Key
unfolding keep
published_keys keys = keep (λ k. k.published) keys

-- The loop that ends each inventory check: no key outside `allowed` is active or published.
unfoldable pub reject_unexpected : List ℕ → List Key → Result (Unit {0})
unfolding contains
reject_unexpected allowed [] = ok tt
reject_unexpected allowed (k ∷ keys) =
    if (k.active || k.published) && not (contains allowed k.id)
    then err (errorf "unexpected active or published key %d (%s)" (num k.id ∷ str k.key_type ∷ []))
    else reject_unexpected allowed keys
