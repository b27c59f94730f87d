-- ===== src/Prelude/Outcome.antt =====
-- Code that throws: a value, or the error of the first `throw` that is reached.
use mathlib.Core.Path.{◌≡◌, refl}
use mathlib.Core.Bool.{Bool, true, false}

pub data Result {ℓ κ} (E : Type ℓ) (A : Type κ) : Type (ℓ ⊔ κ) where
  ok : A → Result E A
  err : E → Result E A

module _ {ℓ κ} {E : Type ℓ} {B : Type κ} where
  infixl 5 ◌>>◌
  -- What follows a statement that may throw.
  abbrev pub ◌>>◌ : Result E (Unit {0}) → Result E B → Result E B
  err thrown >> following = err thrown
  ok done >> following = following

  infixl 5 ◌>>=◌
  -- What follows a call whose value it reads.
  abbrev pub ◌>>=◌ {μ} : {A : Type μ} → Result E A → (A → Result E B) → Result E B
  err thrown >>= following = err thrown
  ok value >>= following = following value

-- `if (bad) throw e;`
abbrev pub throw_if {ℓ} : {E : Type ℓ} → Bool → E → Result E (Unit {0})
throw_if true e = err e
throw_if false e = ok tt

module _ {ℓ κ μ} {E : Type ℓ} {A : Type κ} {B : Type μ} where
  -- A call that did not throw, and the rest behind it.
  pub >>=-eq-ok :
      (call : Result E A) (following : A → Result E B) {out : B}
      → (call >>= following) ≡ ok out
      → (value : A) × (call ≡ ok value) × (following value ≡ ok out)
  >>=-eq-ok (err thrown) following h = cc
  >>=-eq-ok (ok value) following h = (value, refl, h)

pub throw_if-eq-ok {ℓ} : {E : Type ℓ} (b : Bool) (e : E) → throw_if b e ≡ ok tt → b ≡ false
throw_if-eq-ok true e h = cc
throw_if-eq-ok false e h = refl

-- What a guard that passed, and the rest behind it, have shown.
pub throw_if-then {ℓ κ} :
    {E : Type ℓ} {A : Type κ} (b : Bool) (e : E) (k : Result E A) {a : A}
    → (throw_if b e >> k) ≡ ok a
    → (b ≡ false) × (k ≡ ok a)
throw_if-then true e k h = cc
throw_if-then false e k h = (refl, h)

pub ok_injective {ℓ κ} :
    {E : Type ℓ} {A : Type κ} {a b : A} → ◌≡◌ {A = Result E A} (ok a) (ok b) → a ≡ b
ok_injective h = cc

-- A statement that did not throw, and the rest behind it.
pub >>-eq-ok {ℓ κ} :
    {E : Type ℓ} {B : Type κ} (statement : Result E (Unit {0})) (rest : Result E B) {out : B}
    → (statement >> rest) ≡ ok out
    → (statement ≡ ok tt) × (rest ≡ ok out)
>>-eq-ok (err thrown) rest h = cc
>>-eq-ok (ok done) rest h = (refl, h)
