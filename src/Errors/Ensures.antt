-- ===== src/Errors/Ensures.antt =====
-- What a check that may fail guarantees when it passes: rules, one for each way to build a check.
use dnssec_keyrotation.Base.{Bool, true, false, ◌≡◌, refl, if◌then◌else◌}
use dnssec_keyrotation.Errors.{Error, Result, ok, err, reject_if, ◌>>=◌, ◌>>◌}

-- What holds when the check passes.
pub record Ensures {A : Type 0} (Q : A → Type 0) (m : Result A) : Type 0 where
  pub at : (a : A) → m ≡ ok a → Q a

module _ {B : Type 0} {Q : B → Type 0} where
  pub Ensures-bind :
      {A : Type 0} {m : Result A} {f : A → Result B}
      → ((a : A) → m ≡ ok a → Ensures Q (f a))
      → Ensures Q (◌>>=◌ m f)
  unfolding ◌>>=◌
  Ensures-bind {A} {m} {f} next = record { at = continue m refl }
    where
      continue : (r : Result A) → m ≡ r → (b : B) → ◌>>=◌ r f ≡ ok b → Q b
      continue (ok a) same b e = (next a same).at b e
      continue (err x) same b e = cc

  pub Ensures-reject :
      (b : Bool) (x : Error) {m : Result B}
      → (b ≡ false → Ensures Q m)
      → Ensures Q (reject_if b x >> m)
  unfolding ◌>>=◌
  Ensures-reject true x next = record { at = λ b e. cc }
  Ensures-reject false x next = next refl

  pub Ensures-if :
      (b : Bool) {m n : Result B} → Ensures Q m → Ensures Q n → Ensures Q (if b then m else n)
  Ensures-if true em en = em
  Ensures-if false em en = en

  pub Ensures-final : {m : Result B} → ((b : B) → m ≡ ok b → Q b) → Ensures Q m
  Ensures-final final = record { at = final }

-- A check that ends by a test.
pub Ensures-test :
    {Q : Unit {0} → Type 0} (b : Bool) (x : Error) → (b ≡ false → Q tt) → Ensures Q (reject_if b x)
Ensures-test true x passes = record { at = λ b e. cc }
Ensures-test false x passes = record { at = λ b e. passes refl }

pub ok_inj : {A : Type 0} {a b : A} → ok a ≡ ok b → a ≡ b
ok_inj e = cc
