-- ===== src/Base/Order.antt =====
-- The order of texts, and that of the texts "number/number/number/text" which the program compares.
use Prim.Native.Nat.{ℕ, Ordering}
use Prim.Native.String.{String, [], ◌∷◌, compare}
use Prim.Native.String.compare
use mathlib.Core.Path.{◌≡◌, refl, subst}
use mathlib.Core.Logic.{◌↔◌}
use mathlib.Core.Bool.{Bool, true, false, ◌&&◌}
use native.Mathlib.Omega.{arith}
use text.Mathlib.TextEquality.{eq_iff, path_by_compare}
use dnssec_keyrotation.Base.Tests.{Eq, ◌==◌, ltb, nat_eq, string_eq, beq_refl, if◌then◌else◌}
use dnssec_keyrotation.Base.Text.{text_le}
use dnssec_keyrotation.Base.Sorting.{IsOrder, and_true}

text-total : (s t : String) → text_le s t ≡ false → text_le t s ≡ true
text-total [] [] h = refl
text-total [] (d ∷ t) h = ground (arith, compare.nil-cons d t)
text-total (c ∷ s) [] h = ground (arith, compare.nil-cons c s)
text-total (c ∷ s) (d ∷ t) h =
    ground (arith, compare.cons-cons c d s t, compare.cons-cons d c t s, text-total s t)

text-transitive : (s t u : String) → text_le s t ≡ true → text_le t u ≡ true → text_le s u ≡ true
text-transitive [] t [] h k = refl
text-transitive [] t (e ∷ u) h k = ground (arith, compare.nil-cons e u)
text-transitive (c ∷ s) [] u h k = ground (arith, compare.cons-nil c s)
text-transitive (c ∷ s) (d ∷ t) [] h k = ground (arith, compare.cons-nil d t)
text-transitive (c ∷ s) (d ∷ t) (e ∷ u) h k = ground (
  arith,
  compare.cons-cons c d s t,
  compare.cons-cons d e t u,
  compare.cons-cons c e s u,
  text-transitive s t u,
)

text_antisymm : (s t : String) → text_le s t ≡ true → text_le t s ≡ true → compare s t ≡ Ordering.eq
text_antisymm [] [] h k = refl
text_antisymm [] (d ∷ t) h k = ground (arith, compare.cons-nil d t)
text_antisymm (c ∷ s) [] h k = ground (arith, compare.cons-nil c s)
text_antisymm (c ∷ s) (d ∷ t) h k =
    ground (arith, compare.cons-cons c d s t, compare.cons-cons d c t s, text_antisymm s t)

pub text_le-IsOrder : IsOrder text_le
text_le-IsOrder = record {
  total = text-total;
  antisymm = λ s t h k. path_by_compare s t (text_antisymm s t h k);
  transitive = text-transitive;
}

-- The text "%d/%d/%d/%s" as the tuple of its parts: the first three are numbers and hold no slash, so
-- equal texts are equal tuples. The texts sort in another order than the tuples, on which a comparison
-- of sorted lists does not depend.
pub record Slashed : Type 0 where
  pub first : ℕ
  pub second : ℕ
  pub third : ℕ
  pub last : String

abbrev pub slashed_same : Slashed → Slashed → Bool
slashed_same a b =
    a.first == b.first && (a.second == b.second && (a.third == b.third && a.last == b.last))

pub slashed_same_iff : (a b : Slashed) → (slashed_same a b ≡ true) ↔ (a ≡ b)
slashed_same_iff a b = (
  λ e.
      let p = and_true _ _ e in
      let q = and_true _ _ p.1 in
      let r = and_true _ _ q.1 in
      λ i. record {
        first = (nat_eq.same_iff a.first b.first).0 p.0 i;
        second = (nat_eq.same_iff a.second b.second).0 q.0 i;
        third = (nat_eq.same_iff a.third b.third).0 r.0 i;
        last = (eq_iff a.last b.last).0 r.1 i;
      },
  λ e.
      subst (λ c. slashed_same a c ≡ true) e
        (rw (beq_refl a.first, beq_refl a.second, beq_refl a.third, beq_refl a.last) refl),
)

instance abbrev pub slashed_eq : Eq Slashed
slashed_eq = record { same = slashed_same; same_iff = slashed_same_iff }

abbrev pub slashed_le : Slashed → Slashed → Bool
slashed_le a b =
    if a.first == b.first
    then (if a.second == b.second
        then (if a.third == b.third then text_le a.last b.last else ltb a.third b.third)
        else ltb a.second b.second)
    else ltb a.first b.first

slashed_antisymm : (a b : Slashed) → slashed_le a b ≡ true → slashed_le b a ≡ true → a ≡ b
slashed_antisymm a b h k = ground (arith, text_le-IsOrder.antisymm a.last b.last)

slashed-total : (a b : Slashed) → slashed_le a b ≡ false → slashed_le b a ≡ true
slashed-total a b h = ground (arith, text_le-IsOrder.total a.last b.last)

slashed-transitive :
    (a b c : Slashed) → slashed_le a b ≡ true → slashed_le b c ≡ true → slashed_le a c ≡ true
slashed-transitive a b c h k = ground (arith, text_le-IsOrder.transitive a.last b.last c.last)

pub slashed_le-IsOrder : IsOrder slashed_le
slashed_le-IsOrder = record {
  total = slashed-total;
  antisymm = slashed_antisymm;
  transitive = slashed-transitive;
}
