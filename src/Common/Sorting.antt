-- ===== src/Common/Sorting.antt =====
-- `Array.sort` and `orderBy` as stable insertion, `slice(0, n)` and `limit(n)`, with their laws.
use Prim.Native.Nat.{ℕ, zero, suc, ◌≤◌}
use mathlib.Core.Bool.{Bool, true, false}
use mathlib.Core.List.{List, [], ◌∷◌, Perm}
use mathlib.Core.List.Perm
use mathlib.Core.Path.{◌≡◌}
use mathlib.Core.Logic.{inl, inr}
use native.Mathlib.Omega.{arith}
use notaryday_backend.Common.Tests.{if◌then◌else◌, Bool-cases}
use notaryday_backend.Common.Lists.{All, All-map, length, select}

module _ {ℓ} {A : Type ℓ} where
  -- `before x y`: the element `x` may stand in front of `y`.
  unfoldable pub insert_by : (A → A → Bool) → A → List A → List A
  insert_by before x [] = x ∷ []
  insert_by before x (y ∷ ys) =
      let rest = insert_by before x ys in if before x y then x ∷ y ∷ ys else y ∷ rest

  unfoldable pub sort_by : (A → A → Bool) → List A → List A
  unfolding insert_by
  sort_by before [] = []
  sort_by before (x ∷ xs) = insert_by before x (sort_by before xs)

  unfoldable pub slice : ℕ → List A → List A
  slice zero xs = []
  slice (suc n) [] = []
  slice (suc n) (x ∷ xs) = x ∷ slice n xs

  -- No element may not stand in front of a later one.
  abbrev pub IsSortedBy : (A → A → Bool) → List A → Type ℓ
  IsSortedBy before [] = Unit
  IsSortedBy before (x ∷ xs) = All (λ y. before x y ≡ true) xs × IsSortedBy before xs

  pub length-slice : (n : ℕ) (xs : List A) → length (slice n xs) ≤ n
  unfolding slice
  length-slice zero xs = omega arith
  length-slice (suc n) [] = omega arith
  length-slice (suc n) (x ∷ xs) = omega (arith, length-slice n xs)

  module _ {κ} (P : A → Type κ) where
    pub slice-All : (n : ℕ) (xs : List A) → All P xs → All P (slice n xs)
    unfolding slice
    slice-All zero xs h = tt
    slice-All (suc n) [] h = tt
    slice-All (suc n) (x ∷ xs) (h, hs) = (h, slice-All n xs hs)

    pub insert_by-All :
        (before : A → A → Bool) (x : A) (ys : List A)
        → P x
        → All P ys
        → All P (insert_by before x ys)
    unfolding insert_by
    insert_by-All before x [] h hs = (h, tt)
    insert_by-All before x (y ∷ ys) h (k, ks) = elim (Bool-cases (before x y)) [
      | inl e ↦ rw e (h, (k, ks))
      | inr e ↦ rw e (k, insert_by-All before x ys h ks)
    ]

    pub sort_by-All : (before : A → A → Bool) (xs : List A) → All P xs → All P (sort_by before xs)
    unfolding sort_by
    sort_by-All before [] h = tt
    sort_by-All before (x ∷ xs) (h, hs) =
        insert_by-All before x (sort_by before xs) h (sort_by-All before xs hs)

  pub slice-IsSortedBy :
      (before : A → A → Bool) (n : ℕ) (xs : List A)
      → IsSortedBy before xs
      → IsSortedBy before (slice n xs)
  unfolding slice
  slice-IsSortedBy before zero xs h = tt
  slice-IsSortedBy before (suc n) [] h = tt
  slice-IsSortedBy before (suc n) (x ∷ xs) (h, hs) =
      (slice-All (λ y. before x y ≡ true) n xs h, slice-IsSortedBy before n xs hs)

  pub insert_by-perm :
      (before : A → A → Bool) (x : A) (ys : List A) → Perm (insert_by before x ys) (x ∷ ys)
  unfolding insert_by
  insert_by-perm before x [] = Perm.refl (x ∷ [])
  insert_by-perm before x (y ∷ ys) = elim (Bool-cases (before x y)) [
    | inl e ↦ rw e (Perm.refl (x ∷ y ∷ ys))
    | inr e ↦ rw e (Perm.trans (Perm.cons y (insert_by-perm before x ys)) (Perm.swap x y ys))
  ]

  pub sort_by-perm : (before : A → A → Bool) (xs : List A) → Perm (sort_by before xs) xs
  unfolding sort_by
  sort_by-perm before [] = Perm.refl []
  sort_by-perm before (x ∷ xs) =
      Perm.trans (insert_by-perm before x (sort_by before xs))
        (Perm.cons x (sort_by-perm before xs))

  module _ (before : A → A → Bool) (total : (x y : A) → before x y ≡ false → before y x ≡ true)
      (chain : (x y z : A) → before x y ≡ true → before y z ≡ true → before x z ≡ true) where
    insert_by-IsSortedBy :
        (x : A) (ys : List A) → IsSortedBy before ys → IsSortedBy before (insert_by before x ys)
    unfolding insert_by
    insert_by-IsSortedBy x [] h = (tt, tt)
    insert_by-IsSortedBy x (y ∷ ys) (h, hs) = elim (Bool-cases (before x y)) [
      | inl e ↦ rw e ((e, All-map _ _ ys (λ z k. chain x y z e k) h), (h, hs))
      | inr e ↦ rw e (
        insert_by-All (λ z. before y z ≡ true) before x ys (total x y e) h,
        insert_by-IsSortedBy x ys hs,
      )
    ]

    pub sort_by-IsSortedBy : (xs : List A) → IsSortedBy before (sort_by before xs)
    unfolding sort_by
    sort_by-IsSortedBy [] = tt
    sort_by-IsSortedBy (x ∷ xs) = insert_by-IsSortedBy x (sort_by before xs) (sort_by-IsSortedBy xs)

  -- What holds of the rows that a query selects.
  pub select-All {κ μ} :
      (P : A → Type κ) (Q : A → Type μ) (q : A → Bool) (xs : List A)
      → ((x : A) → q x ≡ true → Q x → P x)
      → All Q xs
      → All P (select q xs)
  unfolding select
  select-All P Q q [] f h = tt
  select-All P Q q (x ∷ xs) f (h, hs) = elim (Bool-cases (q x)) [
    | inl e ↦ rw e (f x e h, select-All P Q q xs f hs)
    | inr e ↦ rw e (select-All P Q q xs f hs)
  ]

  pub select-satisfies : (q : A → Bool) (xs : List A) → All (λ x. q x ≡ true) (select q xs)
  unfolding select
  select-satisfies q [] = tt
  select-satisfies q (x ∷ xs) = elim (Bool-cases (q x)) [
    | inl e ↦ rw e (e, select-satisfies q xs)
    | inr e ↦ rw e (select-satisfies q xs)
  ]
