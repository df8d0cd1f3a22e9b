-- ===== src/Prelude/Fallible.antt =====
-- Rust's `Result`, with the error type first, and its `?` as a bind.
use mathlib.Core.Path.{◌≡◌, refl}
use mathlib.Core.Option.{Option, none, some}
use mathlib.Core.Bool.{Bool, true, false}

pub data Result {ℓ} (E A : Type ℓ) : Type ℓ where
  ok : A → Result E A
  err : E → Result E A

infixl 5 ◌>>=◌ ◌>>◌
abbrev pub ◌>>=◌ {ℓ} : {E A B : Type ℓ} → Result E A → (A → Result E B) → Result E B
ok a >>= f = f a
err e >>= f = err e

abbrev pub ◌>>◌ {ℓ} : {E B : Type ℓ} → Result E (Unit {ℓ}) → Result E B → Result E B
m >> k = m >>= λ _. k

-- `if test { return Err(e) }`
abbrev pub refuse_if {ℓ} : {E : Type ℓ} → Bool → E → Result E (Unit {ℓ})
refuse_if true e = err e
refuse_if false e = ok tt

-- `o.ok_or(e)`
abbrev pub ok_or {ℓ} : {E A : Type ℓ} → Option A → E → Result E A
ok_or none e = err e
ok_or (some a) e = ok a

-- `r.map_err(f)`
abbrev pub map_err {ℓ} : {E F A : Type ℓ} → Result E A → (E → F) → Result F A
map_err (ok a) f = ok a
map_err (err e) f = err (f e)

abbrev pub is_ok {ℓ} : {E A : Type ℓ} → Result E A → Bool
is_ok (ok _) = true
is_ok (err _) = false

-- What a chain that came through says of its steps.
pub step-came_through {ℓ} :
    {E A B : Type ℓ} {y : B} (next : A → Result E B) (step : Result E A)
    → (step >>= next) ≡ ok y
    → (x : A) × (next x ≡ ok y) × (step ≡ ok x)
step-came_through next (ok x) came = (x, came, refl)
step-came_through next (err refusal) came = absurd (cc)

pub check-came_through {ℓ} :
    {E B : Type ℓ} {y : B} (rest : Result E B) (check : Result E (Unit {ℓ}))
    → (check >> rest) ≡ ok y
    → (rest ≡ ok y) × (check ≡ ok tt)
check-came_through rest check came =
    let (_, r, c) = step-came_through (λ _. rest) check came in (r, c)

-- The parts of a pair that two successes share.
pub ok_parts {ℓ} :
    {E A B : Type ℓ} {p q : A × B}
    → Path (Result E (A × B)) (ok p) (ok q)
    → (p.0 ≡ q.0) × (p.1 ≡ q.1)
ok_parts h = (cc h, cc h)
