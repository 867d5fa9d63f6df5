-- ===== src/Dwarf/Ensures.antt =====
-- Postconditions of code that may raise: `P` of the value that it returns, `E` of the exception.
use ctypegen.Base.{Bool, true, false, ◌≡◌, refl, subst, ◌≢◌, Option, none, some, ℕ}
use ctypegen.Dwarf.{Error, Result, ok, err, ◌>>=◌}

pub data Ensures {ℓ κ} {A : Type ℓ} (E : Error → Type κ) (P : A → Type κ)
    : Result A → Type (ℓ ⊔ κ) where
  returns : {a : A} → P a → Ensures E P (ok a)
  raises : {e : Error} → E e → Ensures E P (err e)

module _ {ℓ κ} {A : Type ℓ} {E : Error → Type κ} {P : A → Type κ} where
  pub Ensures-ok : {r : Result A} {a : A} → Ensures E P r → r ≡ ok a → P a
  Ensures-ok (returns h) e = subst P (cc) h
  Ensures-ok (raises h) e = cc

  pub Ensures-err : {r : Result A} {x : Error} → Ensures E P r → r ≡ err x → E x
  Ensures-err (returns h) e = cc
  Ensures-err (raises h) e = subst E (cc) h

  pub Ensures-bind {ℓ'} :
      {B : Type ℓ'} {Q : B → Type κ} {r : Result A} {f : A → Result B}
      → Ensures E P r
      → ((a : A) → P a → Ensures E Q (f a))
      → Ensures E Q (r >>= f)
  Ensures-bind (returns {a} h) k = k a h
  Ensures-bind (raises h) k = raises h

  pub Ensures-if :
      (b : Bool) {x y : Result A}
      → (b ≡ true → Ensures E P x)
      → (b ≡ false → Ensures E P y)
      → Ensures E P (ctypegen.Base.if◌then◌else◌ b x y)
  Ensures-if true hx hy = hx refl
  Ensures-if false hx hy = hy refl

  pub Ensures-map :
      {Q : A → Type κ} {r : Result A} → Ensures E P r → ((a : A) → P a → Q a) → Ensures E Q r
  Ensures-map (returns {a} h) k = returns (k a h)
  Ensures-map (raises h) k = raises h

-- Any exception, and any value: all that is known of a result is the result itself.
abbrev pub AnyError : Error → Type 0
AnyError e = Unit

pub Ensures-self : {A : Type 0} (r : Result A) → Ensures AnyError (λ a. r ≡ ok a) r
Ensures-self (ok a) = returns refl
Ensures-self (err e) = raises tt

-- No exception.
abbrev pub Never : Error → Type 0
Never e = ⊥

pub Ensures-Never :
    {A : Type 0} {P : A → Type 0} {r : Result A} → Ensures Never P r → (a : A) × (r ≡ ok a) × P a
Ensures-Never (returns {a} h) = (a, refl, h)
Ensures-Never (raises h) = absurd h
