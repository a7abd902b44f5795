-- ===== src/Base/Lists.antt =====
-- Lists measured by native numbers, predicates on all items, and consecutive parts of a list.
use Prim.Native.Nat.{min, ℕ, zero, suc, ◌+◌, ◌-◌, ◌≤◌}
use mathlib.Core.Path.{◌≡◌, refl, ap}
use mathlib.Core.List.{List, [], ◌∷◌, ◌++◌, append_assoc}
use native.Mathlib.Omega.{arith}

module _ {ℓ} {A : Type ℓ} where
  abbrev pub length : List A → ℕ
  length [] = 0
  length (x ∷ xs) = suc (length xs)

  abbrev pub drop : ℕ → List A → List A
  drop zero xs = xs
  drop (suc n) [] = []
  drop (suc n) (x ∷ xs) = drop n xs

  abbrev pub take : ℕ → List A → List A
  take zero xs = []
  take (suc n) [] = []
  take (suc n) (x ∷ xs) = x ∷ take n xs

  pub length-append : (xs ys : List A) → length (xs ++ ys) ≡ length xs + length ys
  length-append [] ys = omega arith
  length-append (x ∷ xs) ys = omega (arith, length-append xs ys)

  pub length-drop : (n : ℕ) (xs : List A) → length (drop n xs) ≡ length xs - n
  length-drop zero xs = omega arith
  length-drop (suc n) [] = omega arith
  length-drop (suc n) (x ∷ xs) = omega (arith, length-drop n xs)

  -- `xs` is an end of `ys`.
  abbrev pub IsSuffix : List A → List A → Type ℓ
  IsSuffix xs ys = (zs : List A) × (zs ++ xs ≡ ys)

  pub drop-IsSuffix : (n : ℕ) (xs : List A) → IsSuffix (drop n xs) xs
  drop-IsSuffix zero xs = ([], refl)
  drop-IsSuffix (suc n) [] = ([], refl)
  drop-IsSuffix (suc n) (x ∷ xs) = let (zs, e) = drop-IsSuffix n xs in (x ∷ zs, ap (λ t. x ∷ t) e)

  pub IsSuffix-trans : (xs ys zs : List A) → IsSuffix xs ys → IsSuffix ys zs → IsSuffix xs zs
  IsSuffix-trans xs ys zs (p, e) (q, f) = (q ++ p, rw (append_assoc, e) f)

  pub length-IsSuffix : (xs ys : List A) → IsSuffix xs ys → length xs ≤ length ys
  length-IsSuffix xs ys (zs, e) = omega (arith, length-append zs xs, ap length e)

module _ {ℓ κ} {A : Type ℓ} (P : A → Type κ) where
  abbrev pub All : List A → Type κ
  All [] = Unit
  All (x ∷ xs) = P x × All xs

  pub All-append : (xs ys : List A) → All xs → All ys → All (xs ++ ys)
  All-append [] ys _ hy = hy
  All-append (x ∷ xs) ys (px, hx) hy = (px, All-append xs ys hx hy)

module _ {ℓ κ μ} {A : Type ℓ} {P : A → Type κ} {Q : A → Type μ} where
  pub All-map : (xs : List A) → ((x : A) → P x → Q x) → All P xs → All Q xs
  All-map [] f h = tt
  All-map (x ∷ xs) f (p, h) = (f x p, All-map xs f h)

module _ {ℓ κ} {A : Type ℓ} (P : A → Type κ) where
  -- Without one item.
  pub All_remove :
      (before : List A) (x : A) (after : List A)
      → All P (before ++ x ∷ after)
      → All P (before ++ after)
  All_remove [] x after (p, h) = h
  All_remove (y ∷ before) x after (p, h) = (p, All_remove before x after h)

  pub All_item : (before : List A) (x : A) (after : List A) → All P (before ++ x ∷ after) → P x
  All_item [] x after (p, h) = p
  All_item (y ∷ before) x after (p, h) = All_item before x after h

module _ {ℓ κ} {A : Type ℓ} (P : A → Type κ) where
  pub All-take : (n : ℕ) (xs : List A) → All P xs → All P (take n xs)
  All-take zero xs h = tt
  All-take (suc n) [] h = tt
  All-take (suc n) (x ∷ xs) (p, h) = (p, All-take n xs h)

  pub All-drop : (n : ℕ) (xs : List A) → All P xs → All P (drop n xs)
  All-drop zero xs h = h
  All-drop (suc n) [] h = tt
  All-drop (suc n) (x ∷ xs) (p, h) = All-drop n xs h

pub length-take {ℓ} : {A : Type ℓ} (n : ℕ) (xs : List A) → length (take n xs) ≡ min n (length xs)
length-take zero xs = omega arith
length-take (suc n) [] = omega arith
length-take (suc n) (x ∷ xs) = omega (arith, length-take n xs)
