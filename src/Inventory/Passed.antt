-- ===== src/Inventory/Passed.antt =====
-- The parts of the inventory checks of internal/controller/controller.go: what each tells when it passes.
use dnssec_keyrotation.Base.{
  ℕ, String, Bool, true, false, not, ◌&&◌, ◌||◌, different, ◌≡◌, refl, Option, none, some, List, [],
  ◌∷◌, All, contains, nat_eq, string_eq, ◌==◌, if◌then◌else◌,
}
use dnssec_keyrotation.Errors
use dnssec_keyrotation.Errors.Ensures.{Ensures, Ensures-bind, Ensures-reject, Ensures-final, ok_inj}
use dnssec_keyrotation.Errors.{
  Error, Result, ok, err, reject_if, wrapping, ◌>>=◌, ◌>>◌, errorf, str, num,
}
use dnssec_keyrotation.Model.{Key, DnssecData}
use dnssec_keyrotation.Api.{DnsLibrary}
use dnssec_keyrotation.Inventory.Keys.{by_id, required, recorded_keys, reject_unexpected, only}
use dnssec_keyrotation.Inventory.Roles.{validated_key_role}
use dnssec_keyrotation.Inventory.Prepublish.{companion_of}

pub required-ok :
    (o : Option Key) (missing : Error) {k : Key} → required o missing ≡ ok k → o ≡ some k
required-ok none missing e = cc
required-ok (some j) missing e = cc

-- Every key that is active or published has one of the ids.
abbrev pub AllowsOnly : List ℕ → List Key → Type 0
AllowsOnly allowed = All (λ k. (k.active || k.published) ≡ true → contains allowed k.id ≡ true)

pub if-ok :
    {B : Type 0} (b : Bool) (x : Error) (m : Result B) {y : B}
    → (if b then err x else m) ≡ ok y
    → (b ≡ false) × (m ≡ ok y)
if-ok true x m e = cc
if-ok false x m e = (refl, e)

pub allowed_if : (live found : Bool) → (live && not found) ≡ false → live ≡ true → found ≡ true
allowed_if true true e h = refl
allowed_if true false e h = cc
allowed_if false found e h = cc

pub reject_unexpected-ok :
    (allowed : List ℕ) (keys : List Key)
    → reject_unexpected allowed keys ≡ ok tt
    → AllowsOnly allowed keys
unfolding reject_unexpected
reject_unexpected-ok allowed [] e = tt
reject_unexpected-ok allowed (k ∷ keys) e =
    let parts = if-ok _ _ _ e in
    (
      allowed_if (k.active || k.published) (contains allowed k.id) parts.0,
      reject_unexpected-ok allowed keys parts.1,
    )

pub recorded-Ensures :
    (keys : List Key) (old_id new_id : ℕ)
    → Ensures
        (λ found. (by_id keys old_id ≡ some found.0) × (by_id keys new_id ≡ some found.1))
        (recorded_keys keys old_id new_id)
unfolding recorded_keys
recorded-Ensures keys old_id new_id = Ensures-bind λ old old_e. Ensures-bind λ new new_e.
    Ensures-final λ found e.
      let same = ok_inj e in (rw⁻¹ same (required-ok _ _ old_e), rw⁻¹ same (required-ok _ _ new_e))

pub or_false : (a b : Bool) → (a || b) ≡ false → (a ≡ false) × (b ≡ false)
or_false true b e = cc
or_false false b e = (refl, e)

pub same_if : (a b : Bool) → different a b ≡ false → a ≡ b
same_if true true e = refl
same_if true false e = cc
same_if false true e = cc
same_if false false e = refl

pub not-false : (b : Bool) → not b ≡ false → b ≡ true
not-false true e = refl
not-false false e = cc

pub both_or : (a b : Bool) → (not a || not b) ≡ false → (a ≡ true) × (b ≡ true)
both_or true true e = (refl, refl)
both_or true false e = cc
both_or false b e = cc

-- A choice that a later statement makes too.
pub Ensures-by :
    {A : Type 0} (Q : Bool → A → Type 0) (b : Bool) {m n : Result A}
    → (b ≡ true → Ensures (Q true) m)
    → (b ≡ false → Ensures (Q false) n)
    → Ensures (Q b) (if b then m else n)
Ensures-by Q true em en = em refl
Ensures-by Q false em en = en refl

pub when-ok :
    (b : Bool) (x : Error) {j k : Key} → (if b then ok j else err x) ≡ ok k → (b ≡ true) × (j ≡ k)
when-ok true x e = (refl, ok_inj e)
when-ok false x e = cc

pub companion-published :
    (typ : String) (r : Result Key) (k : Key)
    → companion_of typ r ≡ Errors.ok k
    → (r ≡ Errors.ok k) × (k.published ≡ true)
companion-published typ (ok j) k e =
    let kept = when-ok _ _ e in (rw kept.1 refl, rw⁻¹ kept.1 kept.0)
companion-published typ (err x) k e = cc

pub only-ok : (typ : String) (keys : List Key) {k : Key} → only typ keys ≡ ok k → keys ≡ k ∷ []
only-ok typ [] e = cc
only-ok typ (j ∷ []) e = rw (ok_inj e) refl
only-ok typ (j ∷ i ∷ rest) e = cc

pub split_ids :
    (b x y z : Bool) → (b && (x || y || z)) ≡ false → b ≡ true → (y ≡ false) × (z ≡ false)
split_ids true true y z e h = cc
split_ids true false true z e h = cc
split_ids true false false true e h = cc
split_ids true false false false e h = (refl, refl)
split_ids false x y z e h = cc

pub typed :
    (same : Bool) (x : Error) (d : DnssecData) {got : DnssecData}
    → (if same then ok d else err x) ≡ ok got
    → same ≡ true
typed true x d e = refl
typed false x d e = cc

-- A key that passes for a role, with no exception for a migration, has the type of the role.
pub role-type :
    (dns : DnsLibrary) (zone : String) (key : Key) (typ : String)
    → Ensures (λ _. (key.key_type == typ) ≡ true) (validated_key_role dns zone key typ false)
unfolding validated_key_role
role-type dns zone key typ =
    Ensures-bind
      λ d _. Ensures-reject _ _ λ _. Ensures-reject _ _ λ _. Ensures-final λ _ e. typed _ _ _ e

pub wrapping-ok :
    {A : Type 0} (context : String) (r : Result A) {a : A} → wrapping context r ≡ ok a → r ≡ ok a
wrapping-ok context (ok b) e = e
wrapping-ok context (err x) e = cc
