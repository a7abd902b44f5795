-- ===== src/Base/Result.antt =====
-- Go's `(T, error)`: a value, or the text of an error.
use Prim.Native.String.{String, ◌++◌}
use mathlib.Core.Path.{◌≡◌, refl, sym, subst}
use mathlib.Core.Logic.{◌↔◌, ◌⊎◌, inl, inr}

pub data Result {ℓ} (A : Type ℓ) : Type ℓ where
  ok : A → Result A
  err : String → Result A

infixl 5 ◌>>=◌ ◌>>◌
-- `x, err := m; if err != nil { return err }`, and the rest of the function.
abbrev pub ◌>>=◌ {ℓ κ} : {X : Type ℓ} {Y : Type κ} → Result X → (X → Result Y) → Result Y
ok x >>= rest = rest x
err why >>= rest = err why

-- The same where the value is not used.
abbrev pub ◌>>◌ {ℓ κ} : {X : Type ℓ} {Y : Type κ} → Result X → Result Y → Result Y
first >> second = first >>= λ _. second

-- `fmt.Errorf("what: %w", err)`
abbrev pub wrap {ℓ} : {A : Type ℓ} → String → Result A → Result A
wrap what (ok a) = ok a
wrap what (err e) = err (what ++ ": " ++ e)

-- To split on a computed result and keep the equation.
pub Result-cases {ℓ} :
    {A : Type ℓ} (m : Result A) → ((a : A) × (m ≡ ok a)) ⊎ ((e : String) × (m ≡ err e))
Result-cases (ok a) = inl (a, refl)
Result-cases (err e) = inr (e, refl)

abbrev pub IsError {ℓ} : {A : Type ℓ} → Result A → Type 0
IsError (ok a) = ⊥
IsError (err e) = Unit

pub error_of {ℓ} : {A : Type ℓ} (m : Result A) → IsError m → (e : String) × (m ≡ err e)
error_of (ok a) h = absurd h
error_of (err e) h = (e, refl)

pub ok-injective {ℓ} : {A : Type ℓ} {a b : A} → ok a ≡ ok b → a ≡ b
ok-injective e = cc

pub >>_iff {ℓ} :
    {B : Type ℓ} (m : Result (Unit {0})) (k : Result B) (b : B)
    → ((m >> k) ≡ ok b) ↔ ((m ≡ ok tt) × (k ≡ ok b))
>>_iff (ok tt) k b = (λ h. (refl, h), λ h. h.1)
>>_iff (err e) k b = (λ h. absurd cc, λ h. absurd cc)

pub wrap->>=_iff {ℓ κ} :
    {A : Type ℓ} {B : Type κ} (what : String) (m : Result A) (f : A → Result B) (b : B)
    → ((wrap what m >>= f) ≡ ok b) ↔ ((a : A) × (m ≡ ok a) × (f a ≡ ok b))
wrap->>=_iff what (ok a) f b =
    (λ h. (a, refl, h), λ (a', e, h). subst (λ x. f x ≡ ok b) (sym (ok-injective e)) h)
wrap->>=_iff what (err e) f b = (λ h. absurd cc, λ (_, h, _). absurd cc)
