-- ===== src/Base/Results.antt =====
-- Outcomes of code that can throw, fault or run on: a value or an error, with `do` blocks.
use mathlib.Core.Bool.{Bool, true, false}
use mathlib.Core.Path.{◌≡◌, refl, ap}

-- The first eight are exceptions, of which `daq_exception` is one of NSCLDAQ and `e2sar_exception`
-- one of E2SAR; `out_of_bounds` an access that C++ leaves undefined;
-- `out_of_fuel` a loop that is still running when the rounds given to it are used up.
pub data Error : Type 0 where
  bad_alloc runtime_error invalid_argument logic_error errno_exception thrown_string : Error
  daq_exception e2sar_exception : Error
  out_of_bounds out_of_fuel : Error

pub data Result {ℓ} (R : Type ℓ) : Type ℓ where
  ok : R → Result R
  err : Error → Result R

-- What follows a throw is not run.
infixl 5 ◌>>=◌
abbrev pub ◌>>=◌ {ℓ μ} : {R : Type ℓ} {S : Type μ} → Result R → (R → Result S) → Result S
err thrown >>= next = err thrown
ok r >>= next = next r

-- Where a chain has come to a value, its first part has.
pub >>=-eq-ok {ℓ μ} :
    {R : Type ℓ} {S : Type μ} (first : Result R) (next : R → Result S) {s : S}
    → (first >>= next) ≡ ok s
    → (r : R) × (first ≡ ok r) × (next r ≡ ok s)
>>=-eq-ok (err thrown) next run = cc
>>=-eq-ok (ok r) next run = (r, refl, run)

pub bind_assoc {ℓ κ μ} :
    {A : Type ℓ} {B : Type κ} {C : Type μ} (m : Result A) (f : A → Result B) (g : B → Result C)
    → ((m >>= f) >>= g) ≡ (m >>= λ a. f a >>= g)
bind_assoc (ok a) f g = refl
bind_assoc (err e) f g = refl

pub ok-injective {ℓ} : {A : Type ℓ} {a b : A} → ok a ≡ ok b → a ≡ b
ok-injective h = cc

pub >>=_of_ok {ℓ κ} :
    {A : Type ℓ} {B : Type κ} (m : Result A) {a : A} (f : A → Result B) → m ≡ ok a → (m >>= f) ≡ f a
>>=_of_ok m f h = ap (λ x. x >>= f) h

-- The two parts of a known pair, for a call that is taken apart by `let (a, b) = …`.
pub first_eq {ℓ μ} : {A : Type ℓ} {B : Type μ} {p : A × B} {a : A} {b : B} → p ≡ (a, b) → p.0 ≡ a
first_eq e = ap (λ x. x.0) e

pub second_eq {ℓ μ} : {A : Type ℓ} {B : Type μ} {p : A × B} {a : A} {b : B} → p ≡ (a, b) → p.1 ≡ b
second_eq e = ap (λ x. x.1) e

-- `if (!b) throw`.
abbrev pub guard_that : Bool → Error → Result (Unit {0})
guard_that true e = ok tt
guard_that false e = err e
