-- ===== src/Base/Sorting.antt =====
-- `slices.Sort` for any total order, and what does not depend on the order of a list.
use mathlib.Core.Path.{◌≡◌, refl, sym, ◌∙◌, ap, subst}
use mathlib.Core.Logic.{inl, inr, ∥∥₁_elim}
use mathlib.Core.Bool.{Bool, true, false, ◌&&◌}
use mathlib.Core.List.{List, [], ◌∷◌, Perm, Permᴰ}
use mathlib.Core.List.Perm
use dnssec_keyrotation.Base.Tests.{Eq, ◌==◌, if◌then◌else◌, beq_refl, Bool-cases}

module _ {ℓ} {A : Type ℓ} (le : A → A → Bool) where
  unfoldable pub insert_by : A → List A → List A
  insert_by a [] = a ∷ []
  insert_by a (b ∷ rest) =
      let later = insert_by a rest in if le a b then a ∷ b ∷ rest else b ∷ later

  unfoldable pub sort_by : List A → List A
  unfolding insert_by
  sort_by [] = []
  sort_by (a ∷ rest) = insert_by a (sort_by rest)

  insert_by-perm : (a : A) (xs : List A) → Perm (insert_by a xs) (a ∷ xs)
  unfolding insert_by
  insert_by-perm a [] = Perm.refl (a ∷ [])
  insert_by-perm a (b ∷ rest) = elim (Bool-cases (le a b)) [
    | inl yes_le ↦ rw yes_le (Perm.refl (a ∷ b ∷ rest))
    | inr not_le ↦ rw not_le (Perm.trans (Perm.cons b (insert_by-perm a rest)) (Perm.swap a b rest))
  ]

  pub sort_by-perm : (xs : List A) → Perm (sort_by xs) xs
  unfolding sort_by
  sort_by-perm [] = Perm.refl []
  sort_by-perm (a ∷ rest) =
      Perm.trans (insert_by-perm a (sort_by rest)) (Perm.cons a (sort_by-perm rest))

-- The test is a total order.
pub record IsOrder {ℓ} {A : Type ℓ} (le : A → A → Bool) : Type ℓ where
  pub total : (a b : A) → le a b ≡ false → le b a ≡ true
  pub antisymm : (a b : A) → le a b ≡ true → le b a ≡ true → a ≡ b
  pub transitive : (a b c : A) → le a b ≡ true → le b c ≡ true → le a c ≡ true

module _ {ℓ} {A : Type ℓ} {le : A → A → Bool} (order : IsOrder le) where
  heads :
      (a b : A) (rest : List A)
      → (if le a b then a ∷ b ∷ rest else b ∷ a ∷ rest)
        ≡ (if le b a then b ∷ a ∷ rest else a ∷ b ∷ rest)
  heads a b rest = split (le a b) (le b a) refl refl
    where
      split :
          (x y : Bool)
          → le a b ≡ x
          → le b a ≡ y
          → (if x then a ∷ b ∷ rest else b ∷ a ∷ rest) ≡ (if y then b ∷ a ∷ rest else a ∷ b ∷ rest)
      split true true ab ba = let same = order.antisymm a b ab ba in rw same refl
      split true false ab ba = refl
      split false true ab ba = refl
      split false false ab ba = let ba' = order.total a b ab in cc

  insert_by_comm :
      (a b : A) (xs : List A)
      → insert_by le a (insert_by le b xs) ≡ insert_by le b (insert_by le a xs)
  unfolding insert_by
  insert_by_comm a b [] = heads a b []
  insert_by_comm a b (c ∷ rest) = split (insert_by_comm a b rest) (le a c) (le b c) refl refl
    where
      split :
          insert_by le a (insert_by le b rest) ≡ insert_by le b (insert_by le a rest)
          → (x y : Bool) → le a c ≡ x
          → le b c ≡ y
          → insert_by le a (if y then b ∷ c ∷ rest else c ∷ insert_by le b rest)
            ≡ insert_by le b (if x then a ∷ c ∷ rest else c ∷ insert_by le a rest)
      split ih true true ac bc = rw (ac, bc) (heads a b (c ∷ rest))
      split ih true false ac bc = elim (Bool-cases (le b a)) [
        | inl ba ↦ let bc' = order.transitive b a c ba ac in cc
        | inr ba ↦ rw (ac, ba, bc) refl
      ]
      split ih false true ac bc = elim (Bool-cases (le a b)) [
        | inl ab ↦ let ac' = order.transitive a b c ab bc in cc
        | inr ab ↦ rw (ab, ac, bc) refl
      ]
      split ih false false ac bc = rw (ac, bc) (ap (λ t. c ∷ t) ih)

  sorts_same : {xs ys : List A} → Permᴰ xs ys → sort_by le xs ≡ sort_by le ys
  unfolding sort_by
  sorts_same Permᴰ.nil = refl
  sorts_same (Permᴰ.cons {a} e p) = rw (sorts_same p, e) refl
  sorts_same (Permᴰ.swap {a} {b} {l = l} e f) =
      insert_by_comm a b (sort_by le l)
      ∙ (λ i. insert_by le (f i) (insert_by le (e i) (sort_by le l)))
  sorts_same (Permᴰ.trans p q) = sorts_same p ∙ sorts_same q

pub and_true : (a b : Bool) → (a && b) ≡ true → (a ≡ true) × (b ≡ true)
and_true true b e = (refl, e)
and_true false b e = cc

module _ {ℓ} {A : Type ℓ} ⦃equality : Eq A⦄ where
  -- `slices.Equal`
  unfoldable pub equal_lists : List A → List A → Bool
  equal_lists [] [] = true
  equal_lists (a ∷ rest) (b ∷ others) = a == b && equal_lists rest others
  equal_lists _ _ = false

  pub equal_lists-eq : (xs ys : List A) → equal_lists xs ys ≡ true → xs ≡ ys
  unfolding equal_lists
  equal_lists-eq [] [] e = refl
  equal_lists-eq [] (b ∷ ys) e = cc
  equal_lists-eq (a ∷ xs) [] e = cc
  equal_lists-eq (a ∷ xs) (b ∷ ys) e =
      let parts = and_true (a == b) (equal_lists xs ys) e in
      λ i. (equality.same_iff a b).0 parts.0 i ∷ equal_lists-eq xs ys parts.1 i

  pub equal_lists_refl : (xs : List A) → equal_lists xs xs ≡ true
  unfolding equal_lists
  equal_lists_refl [] = refl
  equal_lists_refl (a ∷ xs) = rw (beq_refl a) (equal_lists_refl xs)

-- Two lists that are equal once sorted hold the same elements, as often; and the converse, for an order.
module _ {ℓ} {A : Type ℓ} ⦃equality : Eq A⦄ (le : A → A → Bool) where
  pub equal-sorted_perm :
      (xs ys : List A) → equal_lists (sort_by le xs) (sort_by le ys) ≡ true → Perm xs ys
  equal-sorted_perm xs ys e =
      let same = equal_lists-eq (sort_by le xs) (sort_by le ys) e in
      Perm.trans (Perm.symm (sort_by-perm le xs))
        (subst (λ l. Perm l ys) (sym same) (sort_by-perm le ys))

  pub perm-equal_sorted :
      IsOrder le
      → (xs ys : List A) → Perm xs ys
      → equal_lists (sort_by le xs) (sort_by le ys) ≡ true
  perm-equal_sorted order xs ys p =
      ∥∥₁_elim p (hlevel) (λ d. rw (sorts_same order d) (equal_lists_refl (sort_by le ys)))
