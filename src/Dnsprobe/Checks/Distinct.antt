-- ===== src/Dnsprobe/Checks/Distinct.antt =====
-- `unique` of internal/dnsprobe/probe.go: lists in which no text stands twice.
use dnssec_keyrotation.Base.{
  String, Bool, true, false, ◌≡◌, refl, List, [], ◌∷◌, string_eq, ◌==◌, ◌||◌, contains,
  if◌then◌else◌, Bool-cases, beq_refl, eq_iff, inl, inr,
}
use dnssec_keyrotation.Dnsprobe.Checks.{unique, unique_from}

-- No text stands twice.
abbrev pub Distinct : List String → Type 0
Distinct [] = Unit {0}
Distinct (x ∷ xs) = (contains xs x ≡ false) × Distinct xs

either_false : (a b : Bool) → (a || b) ≡ false → (a ≡ false) × (b ≡ false)
either_false true b e = cc
either_false false b e = (refl, e)

-- A text of a longer list than the other differs from its members.
pub differs : (x y : String) (xs : List String) → contains (x ∷ xs) y ≡ false → (x == y) ≡ false
unfolding contains
differs x y xs e = (either_false (x == y) (contains xs y) e).0

pub rest-contains :
    (x y : String) (xs : List String) → contains (x ∷ xs) y ≡ false → contains xs y ≡ false
unfolding contains
rest-contains x y xs e = (either_false (x == y) (contains xs y) e).1

-- The tests of the loop, on the list of what it has seen.
module _ (seen : List String) (x y : String) where
  still_seen :
      (b : Bool) → contains seen y ≡ true → contains (if b then seen else x ∷ seen) y ≡ true
  unfolding contains
  still_seen true e = e
  still_seen false e = or_true (x == y) _ e
    where
      or_true : (a b : Bool) → b ≡ true → (a || b) ≡ true
      or_true true b e = refl
      or_true false b e = e

  now_seen : (b : Bool) → contains seen x ≡ b → contains (if b then seen else x ∷ seen) x ≡ true
  unfolding contains
  now_seen true e = e
  now_seen false e = rw (beq_refl x) refl

  new_differs : contains seen x ≡ false → contains seen y ≡ true → (x == y) ≡ false
  new_differs fresh old = elim (Bool-cases (x == y)) [
    | inl same ↦ let equal = (eq_iff x y).0 same in cc
    | inr other ↦ other
  ]

  avoids :
      (rest : List String) (b : Bool)
      → contains seen x ≡ b
      → contains seen y ≡ true
      → contains rest y ≡ false
      → contains (if b then rest else x ∷ rest) y ≡ false
  unfolding contains
  avoids rest true known old e = e
  avoids rest false fresh old e = rw (new_differs fresh old) e

unique_from-Avoids :
    (xs seen : List String) (y : String)
    → contains seen y ≡ true
    → contains (unique_from seen xs) y ≡ false
unfolding unique_from contains
unique_from-Avoids [] seen y e = refl
unique_from-Avoids (x ∷ xs) seen y e =
    avoids seen x y _ _ refl e (unique_from-Avoids xs _ y (still_seen seen x y _ e))

unique_from-Distinct : (xs seen : List String) → Distinct (unique_from seen xs)
unfolding unique_from
unique_from-Distinct [] seen = tt
unique_from-Distinct (x ∷ xs) seen =
    extended (contains seen x) _ (unique_from-Avoids xs _ x (now_seen seen x x _ refl))
      (unique_from-Distinct xs _)
  where
    extended :
        (b : Bool) (rest : List String)
        → contains rest x ≡ false
        → Distinct rest
        → Distinct (if b then rest else x ∷ rest)
    extended true rest fresh d = d
    extended false rest fresh d = (fresh, d)

pub unique-Distinct : (xs : List String) → Distinct (unique xs)
unfolding unique
unique-Distinct xs = unique_from-Distinct xs []
