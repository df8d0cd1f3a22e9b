-- ===== src/Prelude/Lists.antt =====
-- Lists measured by native numbers, and Boolean searches over them.
use Prim.Native.Nat.{ℕ, zero, suc, ◌+◌, ◌-◌, ◌≤◌, min}
use mathlib.Core.Path.{◌≡◌, refl}
use mathlib.Core.Bool.{Bool, true, false, ◌&&◌, ◌||◌, false≢true}
use mathlib.Core.Logic.{◌⊎◌, inl, inr}
use mathlib.Core.List.{List, [], ◌∷◌, ◌++◌}
use mathlib.Core.Option.{Option, none, some}
use native.Mathlib.Omega.{arith}
use backbone_mail.Prelude.Tests.{if◌then◌else◌, Bool-cases}

module _ {ℓ} {A : Type ℓ} where
  abbrev pub length : List A → ℕ
  length [] = 0
  length (x ∷ xs) = suc (length xs)

  abbrev pub take : ℕ → List A → List A
  take zero xs = []
  take (suc n) [] = []
  take (suc n) (x ∷ xs) = x ∷ take n xs

  abbrev pub drop : ℕ → List A → List A
  drop zero xs = xs
  drop (suc n) [] = []
  drop (suc n) (x ∷ xs) = drop n xs

  abbrev pub is_empty : List A → Bool
  is_empty [] = true
  is_empty (_ ∷ _) = false

  -- `iter().any(p)`
  abbrev pub any : (A → Bool) → List A → Bool
  any p [] = false
  any p (x ∷ xs) = p x || any p xs

  -- `iter().all(p)`
  abbrev pub all : (A → Bool) → List A → Bool
  all p [] = true
  all p (x ∷ xs) = p x && all p xs

  -- `iter().find(p)`
  abbrev pub find : (A → Bool) → List A → Option A
  find p [] = none
  find p (x ∷ xs) = if p x then some x else find p xs

  -- `iter().filter(p)`
  abbrev pub filterb : (A → Bool) → List A → List A
  filterb p [] = []
  filterb p (x ∷ xs) = let rest = filterb p xs in if p x then x ∷ rest else rest

  unfoldable pub count_if : (A → Bool) → List A → ℕ
  count_if p [] = 0
  count_if p (x ∷ xs) = let rest = count_if p xs in if p x then suc rest else rest

  abbrev pub All {κ} : (A → Type κ) → List A → Type κ
  All P [] = Unit
  All P (x ∷ xs) = P x × All P xs

module _ {ℓ} {A : Type ℓ} where
  pub length-append : (xs ys : List A) → length (xs ++ ys) ≡ length xs + length ys
  length-append [] ys = omega arith
  length-append (x ∷ xs) ys = omega (arith, length-append xs ys)

  pub length-take : (n : ℕ) (xs : List A) → length (take n xs) ≡ min n (length xs)
  length-take zero xs = omega arith
  length-take (suc n) [] = omega arith
  length-take (suc n) (x ∷ xs) = omega (arith, length-take n xs)

  pub length-drop : (n : ℕ) (xs : List A) → length (drop n xs) ≡ length xs - n
  length-drop zero xs = omega arith
  length-drop (suc n) [] = omega arith
  length-drop (suc n) (x ∷ xs) = omega (arith, length-drop n xs)

  pub length-filterb : (p : A → Bool) (xs : List A) → length (filterb p xs) ≤ length xs
  length-filterb p [] = omega arith
  length-filterb p (x ∷ xs) = ground (arith, length-filterb p xs)

module _ {A : Type 0} where
  -- Membership, by the place where the element stands.
  abbrev pub Memb : A → List A → Type 0
  Memb a [] = ⊥
  Memb a (x ∷ xs) = (x ≡ a) ⊎ Memb a xs

  -- A member that passes the test makes `any` true, and `any` finds one.
  pub any-Memb : (p : A → Bool) (a : A) (xs : List A) → Memb a xs → p a ≡ true → any p xs ≡ true
  any-Memb p a [] m h = absurd m
  any-Memb p a (x ∷ xs) m h = ground (arith, any-Memb p a xs)

  pub any_witness :
      (p : A → Bool) (xs : List A) → any p xs ≡ true → (a : A) × Memb a xs × (p a ≡ true)
  any_witness p [] h = absurd (false≢true h)
  any_witness p (x ∷ xs) h = elim (Bool-cases (p x)) [
    | inl e ↦ (x, inl refl, e)
    | inr e ↦ let (a, m, q) = any_witness p xs (ground arith) in (a, inr m, q)
  ]

  pub Memb-filterb :
      (p : A → Bool) (a : A) (xs : List A) → Memb a xs → p a ≡ true → Memb a (filterb p xs)
  Memb-filterb p a [] m h = absurd m
  Memb-filterb p a (x ∷ xs) m h = ground (arith, Memb-filterb p a xs)

  pub filterb-Memb :
      (p : A → Bool) (a : A) (xs : List A) → Memb a (filterb p xs) → Memb a xs × (p a ≡ true)
  filterb-Memb p a [] m = absurd m
  filterb-Memb p a (x ∷ xs) m = ground (arith, filterb-Memb p a xs)

  -- What `find` returns is a member that passes, and it returns something if a member passes.
  pub find-some :
      (p : A → Bool) (xs : List A) {a : A} → find p xs ≡ some a → Memb a xs × (p a ≡ true)
  find-some p [] h = absurd (cc)
  find-some p (x ∷ xs) {a} h = ground (arith, find-some p xs {a = a})

  pub find-none : (p : A → Bool) (a : A) (xs : List A) → find p xs ≡ none → Memb a xs → p a ≡ false
  find-none p a [] h m = absurd m
  find-none p a (x ∷ xs) h m = ground (arith, find-none p a xs)
