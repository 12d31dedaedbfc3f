-- ===== src/Store/Constraints.antt =====
-- Unique indexes that are not keys, under the writes of the client.
use skolara.Prelude.{
  ◌≡◌, refl, Bool, true, false, List, [], ◌∷◌, arith, if◌then◌else◌, any, filter_by, update_by, In,
  inl, inr, Bool-cases, sym, ◌∙◌, any-In,
}
use skolara.Store.Client.{no_clash}

module _ {R : Type 0} where
  pub no_clash-cons :
      (clash : R → R → Bool) (x : R) (xs : List R)
      → any (clash x) xs ≡ false
      → no_clash clash xs ≡ true
      → no_clash clash (x ∷ xs) ≡ true
  no_clash-cons clash x xs h n = ground arith

  any-weaken :
      (q q' : R → Bool) (p : R → Bool) (f : R → R) (xs : List R)
      → ((x : R) → q x ≡ false → q' (if p x then f x else x) ≡ false)
      → any q xs ≡ false
      → any q' (update_by p f xs) ≡ false
  any-weaken q q' p f [] h e = refl
  any-weaken q q' p f (x ∷ xs) h e = ground (arith, h x, any-weaken q q' p f xs h)

  -- An update that makes no new clash.
  pub no_clash-update_by :
      (clash : R → R → Bool) (p : R → Bool) (f : R → R) (xs : List R)
      → ((x y : R)
          → clash x y ≡ false
          → clash (if p x then f x else x) (if p y then f y else y) ≡ false)
      → no_clash clash xs ≡ true
      → no_clash clash (update_by p f xs) ≡ true
  no_clash-update_by clash p f [] h n = refl
  no_clash-update_by clash p f (x ∷ xs) h n = ground (
    arith,
    any-weaken (clash x) (clash (if p x then f x else x)) p f xs (h x),
    no_clash-update_by clash p f xs h,
  )

  any-filter_by : (q p : R → Bool) (xs : List R) → any q xs ≡ false → any q (filter_by p xs) ≡ false
  any-filter_by q p [] h = refl
  any-filter_by q p (x ∷ xs) h = ground (arith, any-filter_by q p xs)

  pub no_clash-filter_by :
      (clash : R → R → Bool) (p : R → Bool) (xs : List R)
      → no_clash clash xs ≡ true
      → no_clash clash (filter_by p xs) ≡ true
  no_clash-filter_by clash p [] n = refl
  no_clash-filter_by clash p (x ∷ xs) n =
      ground (arith, any-filter_by (clash x) p xs, no_clash-filter_by clash p xs)

  pub In-of_any : (p : R → Bool) (xs : List R) → any p xs ≡ true → (a : R) × In a xs × (p a ≡ true)
  In-of_any p [] h = cc
  In-of_any p (x ∷ xs) h = elim (Bool-cases (p x)) [
    | inl e ↦ (x, inl refl, e)
    | inr e ↦ let (a, m, q) = In-of_any p xs (ground arith) in (a, inr m, q)
  ]

  -- A row is still there after an update, as it has become.
  pub In-into-update_by :
      (p : R → Bool) (f : R → R) (xs : List R) (a : R)
      → In a xs
      → In (if p a then f a else a) (update_by p f xs)
  In-into-update_by p f [] a m = elim m [ ]
  In-into-update_by p f (x ∷ xs) a (inl e) = inl (rw e)
  In-into-update_by p f (x ∷ xs) a (inr m) = inr (In-into-update_by p f xs a m)

  pub In-filter_by :
      (p : R → Bool) (xs : List R) (a : R) → In a xs → p a ≡ true → In a (filter_by p xs)
  In-filter_by p [] a m h = elim m [ ]
  In-filter_by p (x ∷ xs) a (inl e) h = ground arith
  In-filter_by p (x ∷ xs) a (inr m) h = elim (Bool-cases (p x)) [
    | inl t ↦ rw t (inr (In-filter_by p xs a m h))
    | inr t ↦ rw t (In-filter_by p xs a m h)
  ]

  -- Two rows that clash are one row, where none clash.
  pub eq_of_clash :
      (clash : R → R → Bool) (xs : List R) (a b : R)
      → ((x y : R) → clash x y ≡ clash y x)
      → no_clash clash xs ≡ true
      → In a xs
      → In b xs
      → clash a b ≡ true
      → a ≡ b
  eq_of_clash clash [] a b h n i j c = elim i [ ]
  eq_of_clash clash (x ∷ xs) a b h n (inl e) (inl f) c = e ∙ sym f
  eq_of_clash clash (x ∷ xs) a b h n (inl e) (inr j) c = ground (arith, any-In (clash x) xs b, e, j)
  eq_of_clash clash (x ∷ xs) a b h n (inr i) (inl f) c =
      ground (arith, any-In (clash x) xs a, f, i, h a b)
  eq_of_clash clash (x ∷ xs) a b h n (inr i) (inr j) c =
      eq_of_clash clash xs a b h (ground arith) i j c

  any-weaken_In :
      (q q' : R → Bool) (p : R → Bool) (f : R → R) (xs : List R)
      → ((x : R) → In x xs → q x ≡ false → q' (if p x then f x else x) ≡ false)
      → any q xs ≡ false
      → any q' (update_by p f xs) ≡ false
  any-weaken_In q q' p f [] h e = refl
  any-weaken_In q q' p f (x ∷ xs) h e =
      ground (arith, h x (inl refl), any-weaken_In q q' p f xs (λ y m. h y (inr m)))

  -- An update that makes no new clash among the rows there are.
  pub no_clash-update_by_on :
      (clash : R → R → Bool) (p : R → Bool) (f : R → R) (xs : List R)
      → ((x y : R)
          → In x xs
          → In y xs
          → clash x y ≡ false
          → clash (if p x then f x else x) (if p y then f y else y) ≡ false)
      → no_clash clash xs ≡ true
      → no_clash clash (update_by p f xs) ≡ true
  no_clash-update_by_on clash p f [] h n = refl
  no_clash-update_by_on clash p f (x ∷ xs) h n = ground (
    arith,
    any-weaken_In (clash x) (clash (if p x then f x else x)) p f xs
        (λ y m. h x y (inl refl) (inr m)),
    no_clash-update_by_on clash p f xs (λ y z m k. h y z (inr m) (inr k)),
  )
