-- ===== src/Prelude/Lists.antt =====
-- Lists measured by native numbers, and the tests, sums and updates that queries are made of.
use Prim.Native.Nat.{ℕ, zero, suc, ◌+◌, ◌<◌}
use mathlib.Core.Path.{◌≡◌, refl, sym, subst}
use mathlib.Core.Logic.{◌⊎◌, inl, inr}
use mathlib.Core.Bool.{Bool, true, false, ◌||◌}
use mathlib.Core.List.{List, [], ◌∷◌, ◌++◌}
use native.Mathlib.Omega.{arith}
use skolara.Prelude.Tests.{if◌then◌else◌, ◌==◌, Bool-cases}

module _ {ℓ} {A : Type ℓ} where
  abbrev pub length : List A → ℕ
  length [] = 0
  length (x ∷ xs) = suc (length xs)

  abbrev pub take : ℕ → List A → List A
  take zero xs = []
  take (suc n) [] = []
  take (suc n) (x ∷ xs) = x ∷ take n xs

  pub length-append : (xs ys : List A) → length (xs ++ ys) ≡ length xs + length ys
  length-append [] ys = omega arith
  length-append (x ∷ xs) ys = omega (arith, length-append xs ys)

  abbrev pub any : (A → Bool) → List A → Bool
  any p [] = false
  any p (x ∷ xs) = p x || any p xs

  -- The rows that a test selects.
  abbrev pub filter_by : (A → Bool) → List A → List A
  filter_by p [] = []
  filter_by p (x ∷ xs) = let rest = filter_by p xs in if p x then x ∷ rest else rest

  abbrev pub sum_by : (A → ℕ) → List A → ℕ
  sum_by f [] = 0
  sum_by f (x ∷ xs) = f x + sum_by f xs

  abbrev pub count_by : (A → Bool) → List A → ℕ
  count_by p = sum_by (λ x. if p x then 1 else 0)

  abbrev pub update_by : (A → Bool) → (A → A) → List A → List A
  update_by p f [] = []
  update_by p f (x ∷ xs) = (if p x then f x else x) ∷ update_by p f xs

  abbrev pub All {κ} : (A → Type κ) → List A → Type κ
  All P [] = Unit
  All P (x ∷ xs) = P x × All P xs

-- Membership of a row in a table.
abbrev pub In : {A : Type 0} → A → List A → Type 0
In a [] = ⊥
In a (x ∷ xs) = (a ≡ x) ⊎ In a xs

pub All-In : {A : Type 0} (P : A → Type 0) (a : A) (xs : List A) → All P xs → In a xs → P a
All-In P a [] h m = elim m [ ]
All-In P a (x ∷ xs) h (inl e) = subst P (sym e) h.0
All-In P a (x ∷ xs) h (inr m) = All-In P a xs h.1 m

pub List-cases {ℓ} :
    {A : Type ℓ} (xs : List A) → (xs ≡ []) ⊎ ((x : A) × (rest : List A) × (xs ≡ x ∷ rest))
List-cases [] = inl refl
List-cases (x ∷ xs) = inr (x, xs, refl)

module _ {A : Type 0} where
  pub All-map : (P Q : A → Type 0) (xs : List A) → ((x : A) → P x → Q x) → All P xs → All Q xs
  All-map P Q [] f h = tt
  All-map P Q (x ∷ xs) f h = (f x h.0, All-map P Q xs f h.1)

  pub All-update_by :
      (P Q : A → Type 0) (p : A → Bool) (f : A → A) (xs : List A)
      → ((x : A) → In x xs → P x → Q (if p x then f x else x))
      → All P xs
      → All Q (update_by p f xs)
  All-update_by P Q p f [] h a = tt
  All-update_by P Q p f (x ∷ xs) h a =
      (h x (inl refl) a.0, All-update_by P Q p f xs (λ y m. h y (inr m)) a.1)

  pub All-filter_by :
      (P Q : A → Type 0) (p : A → Bool) (xs : List A)
      → ((x : A) → p x ≡ true → P x → Q x)
      → All P xs
      → All Q (filter_by p xs)
  All-filter_by P Q p [] h a = tt
  All-filter_by P Q p (x ∷ xs) h a = elim (Bool-cases (p x)) [
    | inl e ↦ rw e (h x e a.0, All-filter_by P Q p xs h a.1)
    | inr e ↦ rw e (All-filter_by P Q p xs h a.1)
  ]

  -- Rows that weigh nothing may go.
  pub sum-filter_by :
      (w : A → ℕ) (p : A → Bool) (xs : List A)
      → ((x : A) → p x ≡ false → w x ≡ 0)
      → sum_by w (filter_by p xs) ≡ sum_by w xs
  sum-filter_by w p [] h = refl
  sum-filter_by w p (x ∷ xs) h = ground (arith, h x, sum-filter_by w p xs h)

  -- An update that changes no row's weight.
  pub sum-update_by_same :
      (w : A → ℕ) (p : A → Bool) (f : A → A) (xs : List A)
      → ((x : A) → w (if p x then f x else x) ≡ w x)
      → sum_by w (update_by p f xs) ≡ sum_by w xs
  sum-update_by_same w p f [] h = refl
  sum-update_by_same w p f (x ∷ xs) h = rw (h x, sum-update_by_same w p f xs h)

  pub any-In : (p : A → Bool) (xs : List A) (a : A) → any p xs ≡ false → In a xs → p a ≡ false
  any-In p [] a h m = elim m [ ]
  any-In p (x ∷ xs) a h (inl e) = ground arith
  any-In p (x ∷ xs) a h (inr m) = any-In p xs a (ground arith) m

  pub any_of_All-false : (p : A → Bool) (xs : List A) → All (λ x. p x ≡ false) xs → any p xs ≡ false
  any_of_All-false p [] h = refl
  any_of_All-false p (x ∷ xs) h = ground (arith, any_of_All-false p xs h.1)

  pub All-false_of_any : (p : A → Bool) (xs : List A) → any p xs ≡ false → All (λ x. p x ≡ false) xs
  All-false_of_any p [] h = tt
  All-false_of_any p (x ∷ xs) h = (ground arith, All-false_of_any p xs (ground arith))

  pub any-false_of_count : (p : A → Bool) (xs : List A) → count_by p xs ≡ 0 → any p xs ≡ false
  any-false_of_count p [] h = refl
  any-false_of_count p (x ∷ xs) h = ground (arith, any-false_of_count p xs)

  pub count_zero_of_any : (p : A → Bool) (xs : List A) → any p xs ≡ false → count_by p xs ≡ 0
  count_zero_of_any p [] h = refl
  count_zero_of_any p (x ∷ xs) h = ground (arith, count_zero_of_any p xs)

  pub count_pos_of_In :
      (p : A → Bool) (xs : List A) (a : A) → In a xs → p a ≡ true → 0 < count_by p xs
  count_pos_of_In p [] a m h = elim m [ ]
  count_pos_of_In p (x ∷ xs) a (inl e) h = ground arith
  count_pos_of_In p (x ∷ xs) a (inr m) h = ground (arith, count_pos_of_In p xs a m h)

  -- A count other than 0 has a row to show for it.
  pub In-of_count :
      (p : A → Bool) (xs : List A) → (count_by p xs == 0) ≡ false → (a : A) × In a xs × (p a ≡ true)
  In-of_count p [] h = cc
  In-of_count p (x ∷ xs) h = elim (Bool-cases (p x)) [
    | inl e ↦ (x, inl refl, e)
    | inr e ↦ let (a, m, q) = In-of_count p xs (ground arith) in (a, inr m, q)
  ]

  pub any_of_In : (p : A → Bool) (xs : List A) (a : A) → In a xs → p a ≡ true → any p xs ≡ true
  any_of_In p [] a m h = elim m [ ]
  any_of_In p (x ∷ xs) a (inl e) h = ground arith
  any_of_In p (x ∷ xs) a (inr m) h = ground (arith, any_of_In p xs a m h)

  -- A claim that unmakes its own test leaves nothing to claim.
  pub count-claimed :
      (p : A → Bool) (f : A → A) (xs : List A)
      → ((x : A) → p (f x) ≡ false)
      → count_by p (update_by p f xs) ≡ 0
  count-claimed p f [] h = refl
  count-claimed p f (x ∷ xs) h = ground (arith, h x, count-claimed p f xs h)

  pub All-of_In : (P : A → Type 0) (xs : List A) → ((x : A) → In x xs → P x) → All P xs
  All-of_In P [] h = tt
  All-of_In P (x ∷ xs) h = (h x (inl refl), All-of_In P xs (λ y m. h y (inr m)))

  -- A test that implies another finds nothing where the other finds nothing.
  pub any-false_of_any :
      (p q : A → Bool) (xs : List A)
      → ((x : A) → p x ≡ false → q x ≡ false)
      → any p xs ≡ false
      → any q xs ≡ false
  any-false_of_any p q [] h e = refl
  any-false_of_any p q (x ∷ xs) h e = ground (arith, h x, any-false_of_any p q xs h)
