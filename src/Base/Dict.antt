-- ===== src/Base/Dict.antt =====
-- Go's `map[string]V` as an association list with at most one entry per key, new keys last.
use Prim.Native.String.{String}
use mathlib.Core.Path.{◌≡◌, refl}
use mathlib.Core.Option.{Option, none, some}
use mathlib.Core.List.{List, [], ◌∷◌}
use native.Mathlib.Omega.{arith}
use text.Mathlib.TextEquality.{eq_iff}
use dnssec_keyrotation.Base.Tests.{string_eq, ◌==◌, if◌then◌else◌}

abbrev pub Assoc {ℓ} : Type ℓ → Type ℓ
Assoc V = List (String × V)

module _ {ℓ} {V : Type ℓ} where
  unfoldable pub lookup : String → Assoc V → Option V
  lookup wanted [] = none
  lookup wanted ((key, value) ∷ others) = if key == wanted then some value else lookup wanted others

  -- `m[k] = v`
  unfoldable pub insert : String → V → Assoc V → Assoc V
  insert new value [] = (new, value) ∷ []
  insert new value ((key, old) ∷ others) =
      let later = insert new value others in
      if key == new then (new, value) ∷ others else (key, old) ∷ later

  -- `delete(m, k)`
  unfoldable pub remove : String → Assoc V → Assoc V
  remove k [] = []
  remove k ((j, v) ∷ m) = let rest = remove k m in if j == k then rest else (j, v) ∷ rest

  -- `for _, v := range m`
  unfoldable pub values : Assoc V → List V
  values [] = []
  values ((j, v) ∷ m) = v ∷ values m

  pub lookup-insert :
      (new wanted : String) (value : V) (entries : Assoc V)
      → lookup wanted (insert new value entries)
        ≡ (if new == wanted then some value else lookup wanted entries)
  unfolding insert lookup
  lookup-insert new wanted value [] = refl
  lookup-insert new wanted value ((key, old) ∷ others) =
      let later = lookup-insert new wanted value others in
      ground (arith, eq_iff key new, eq_iff key wanted, eq_iff new wanted)
