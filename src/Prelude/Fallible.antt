-- ===== src/Prelude/Fallible.antt =====
-- Fallible steps: a value, or an error of the component's own type. `?` is the bind.
use mathlib.Core.Path.{◌≡◌, refl}
use mathlib.Core.Bool.{Bool, true, false}
use mathlib.Core.Option.{Option, none, some}

pub data Result {ℓ κ} (E : Type κ) (A : Type ℓ) : Type (ℓ ⊔ κ) where
  ok : A → Result E A
  err : E → Result E A

infixl 5 ◌>>=◌ ◌>>◌
abbrev pub ◌>>=◌ {ℓ κ μ} :
    {E : Type κ} {A : Type ℓ} {B : Type μ} → Result E A → (A → Result E B) → Result E B
ok value >>= next = next value
err why >>= next = err why

abbrev pub ◌>>◌ {ℓ κ} : {E : Type κ} {B : Type ℓ} → Result E (Unit {0}) → Result E B → Result E B
first >> second = first >>= λ _. second

-- `o.ok_or(e)?`.
abbrev pub ok_or {ℓ κ} : {E : Type κ} {A : Type ℓ} → Option A → E → Result E A
ok_or none e = err e
ok_or (some a) e = ok a

-- `ensure!(b, e)`.
abbrev pub ensure {κ} : {E : Type κ} → Bool → E → Result E (Unit {0})
ensure holds why = elim holds [ true ↦ ok tt | false ↦ err why ]

-- What a chain that succeeds has gone through.
pub >>=-eq-ok {ℓ κ μ} :
    {E : Type κ} {A : Type ℓ} {B : Type μ} (step : Result E A) (next : A → Result E B) {end : B}
    → (step >>= next) ≡ ok end
    → (value : A) × (step ≡ ok value) × (next value ≡ ok end)
>>=-eq-ok (ok value) next done = (value, refl, done)
>>=-eq-ok (err why) next done = absurd (cc)

pub ensure-ok {κ} : {E : Type κ} (b : Bool) (e : E) → ensure b e ≡ ok tt → b ≡ true
ensure-ok true e h = refl
ensure-ok false e h = absurd (cc)

pub >>=-ap {ℓ κ μ} :
    {E : Type κ} {A : Type ℓ} {B : Type μ} (m : Result E A) (f g : A → Result E B)
    → ((a : A) → f a ≡ g a)
    → (m >>= f) ≡ (m >>= g)
>>=-ap (ok a) f g h = h a
>>=-ap (err e) f g h = refl

pub >>=-assoc {ℓ κ μ ν} :
    {E : Type κ} {A : Type ℓ} {B : Type μ} {C : Type ν} (m : Result E A) (f : A → Result E B)
    (g : B → Result E C)
    → (m >>= f >>= g) ≡ (m >>= λ a. f a >>= g)
>>=-assoc (ok a) f g = refl
>>=-assoc (err e) f g = refl

pub >>=-ok {ℓ κ} : {E : Type κ} {A : Type ℓ} (m : Result E A) → (m >>= λ a. ok a) ≡ m
>>=-ok (ok a) = refl
>>=-ok (err e) = refl
