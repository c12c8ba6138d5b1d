-- ===== src/Inventory/Multiset.antt =====
-- `sameMaterial` of internal/controller/controller.go, and what it decides.
use dnssec_keyrotation.Base.{
  ◌≡◌, refl, ap, suc, sym, ◌∙◌, Bool, true, false, ◌↔◌, List, [], ◌∷◌, map, length, nat_eq, ◌==◌,
  equal-sorted_perm, perm-equal_sorted, beq_refl, if◌then◌else◌,
}
use dnssec_keyrotation.Base.Order.{Slashed, slashed_eq, slashed_le, slashed_le-IsOrder}
use mathlib.Core.Logic.{∥∥₁_elim}
use mathlib.Core.List.{Perm, Permᴰ}
use dnssec_keyrotation.Model.{DnssecData}
use dnssec_keyrotation.Inventory.Material.{same_material, material_key}

length-map : (a : List DnssecData) → length (map material_key a) ≡ length a
length-map [] = refl
length-map (d ∷ a) = let same = length-map a in ap suc same

length-perm : {xs ys : List Slashed} → Permᴰ xs ys → length xs ≡ length ys
length-perm Permᴰ.nil = refl
length-perm (Permᴰ.cons e p) = ap suc (length-perm p)
length-perm (Permᴰ.swap e f) = refl
length-perm (Permᴰ.trans p q) = length-perm p ∙ length-perm q

if_true : (b x : Bool) → (if b then x else false) ≡ true → x ≡ true
if_true true x e = e
if_true false x e = cc

-- Two lists of material are the same exactly when their entries, without the space around the keys,
-- are the same up to their order.
pub same_material-Perm :
    (a b : List DnssecData)
    → (same_material a b ≡ true) ↔ Perm (map material_key a) (map material_key b)
unfolding same_material
same_material-Perm a b = (forward, backward)
  where
    forward : same_material a b ≡ true → Perm (map material_key a) (map material_key b)
    forward e =
        equal-sorted_perm slashed_le (map material_key a) (map material_key b)
          (if_true (length a == length b) _ e)

    sizes : Perm (map material_key a) (map material_key b) → length a ≡ length b
    sizes p = ∥∥₁_elim p (hlevel) λ d. sym (length-map a) ∙ length-perm d ∙ length-map b

    backward : Perm (map material_key a) (map material_key b) → same_material a b ≡ true
    backward p =
        rw (sizes p, beq_refl (length b))
          (perm-equal_sorted slashed_le slashed_le-IsOrder (map material_key a) (map material_key b)
            p)
