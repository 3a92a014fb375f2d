-- ===== src/Common/Lists.antt =====
-- Rows of a table: search, update and filter by a Boolean test, and predicates over all rows.
use Prim.Native.Nat.{ℕ, suc, ◌+◌}
use mathlib.Core.Bool.{Bool, false, ◌||◌}
use mathlib.Core.Option.{Option, none, some}
use mathlib.Core.List.{List, [], ◌∷◌, ◌++◌, map}
use mathlib.Core.Path.{◌≡◌, refl, sym, ◌∙◌, ap, subst}
use mathlib.Core.Logic.{inl, inr}
use mathlib.Core.Bool.{true, false≢true}
use native.Mathlib.Omega.{arith}
use notaryday_backend.Common.Tests.{if◌then◌else◌, Bool-cases, get_or, or_false, false_or}

module _ {ℓ} {A : Type ℓ} where
  abbrev pub length : List A → ℕ
  length [] = 0
  length (_ ∷ xs) = suc (length xs)

  -- `Array.find`, and `findFirst` of a query.
  unfoldable pub find_first : (A → Bool) → List A → Option A
  find_first p [] = none
  find_first p (x ∷ xs) = if p x then some x else find_first p xs

  -- `update` of the rows that a query selects.
  unfoldable pub update_where : (A → Bool) → (A → A) → List A → List A
  update_where p f [] = []
  update_where p f (x ∷ xs) = (if p x then f x else x) ∷ update_where p f xs

  -- `Array.filter`, and `findMany` of a query.
  unfoldable pub select : (A → Bool) → List A → List A
  select p [] = []
  select p (x ∷ xs) = let rest = select p xs in if p x then x ∷ rest else rest

  -- `countDocuments`
  unfoldable pub count : (A → Bool) → List A → ℕ
  count q [] = 0
  count q (x ∷ xs) = let rest = count q xs in if q x then suc rest else rest

  -- `Array.some`.
  unfoldable pub any : (A → Bool) → List A → Bool
  any p [] = false
  any p (x ∷ xs) = p x || any p xs

module _ {ℓ κ} {A : Type ℓ} (P : A → Type κ) where
  abbrev pub All : List A → Type κ
  All [] = Unit
  All (x ∷ xs) = P x × All xs

-- Searching again after an update.
module _ {ℓ} {A : Type ℓ} where
  pub find_first_sound :
      (p : A → Bool) (xs : List A) {x : A} → find_first p xs ≡ some x → p x ≡ true
  unfolding find_first
  find_first_sound p [] h = cc
  find_first_sound p (y ∷ ys) h = elim (Bool-cases (p y)) [
    | inl e ↦ let q = rw e at h in subst (λ o. p (get_or o y) ≡ true) q e
    | inr e ↦ find_first_sound p ys (rw e at h)
  ]

  -- A weaker test finds a row too.
  pub find_first-weaken :
      (p q : A → Bool) (xs : List A) {x : A}
      → ((a : A) → p a ≡ true → q a ≡ true)
      → find_first p xs ≡ some x
      → (y : A) × (find_first q xs ≡ some y)
  unfolding find_first
  find_first-weaken p q [] w h = cc
  find_first-weaken p q (y ∷ ys) w h = elim (Bool-cases (q y)) [
    | inl e ↦ (y, rw e)
    | inr e ↦ elim (Bool-cases (p y)) [
      | inl d ↦ absurd (false≢true (sym e ∙ w y d))
      | inr d ↦ let (k, found) = find_first-weaken p q ys w (rw d at h) in (k, rw e found)
    ]
  ]

  pub find_first-update_where :
      (p : A → Bool) (f : A → A) (xs : List A) {x : A}
      → ((a : A) → p a ≡ true → p (f a) ≡ true)
      → find_first p xs ≡ some x
      → find_first p (update_where p f xs) ≡ some (f x)
  unfolding find_first update_where
  find_first-update_where p f [] keep h = cc
  find_first-update_where p f (y ∷ ys) keep h = elim (Bool-cases (p y)) [
    | inl e ↦ rw (e, keep y e) (ap f' (rw e at h))
    | inr e ↦ rw (e, e) (find_first-update_where p f ys keep (rw e at h))
  ]
    where
      f' : Option A → Option A
      f' none = none
      f' (some a) = some (f a)

  pub update_where-All {κ} :
      (P : A → Type κ) (p : A → Bool) (f : A → A) (xs : List A)
      → ((a : A) → p a ≡ true → P a → P (f a))
      → All P xs
      → All P (update_where p f xs)
  unfolding update_where
  update_where-All P p f [] keep h = tt
  update_where-All P p f (y ∷ ys) keep (h, hs) = elim (Bool-cases (p y)) [
    | inl e ↦ rw e (keep y e h, update_where-All P p f ys keep hs)
    | inr e ↦ rw e (h, update_where-All P p f ys keep hs)
  ]

  -- The same with a search test that is stronger than the update's.
  pub find_first-update_where_of :
      (p q : A → Bool) (f : A → A) (xs : List A) {x : A}
      → ((a : A) → q a ≡ true → p a ≡ true)
      → ((a : A) → q (f a) ≡ q a)
      → find_first q xs ≡ some x
      → find_first q (update_where p f xs) ≡ some (f x)
  unfolding find_first update_where
  find_first-update_where_of p q f [] sub keep h = cc
  find_first-update_where_of p q f (y ∷ ys) sub keep h = elim (Bool-cases (q y)) [
    | inl e ↦ rw (sub y e, keep y ∙ e) (ap f' (rw e at h))
    | inr e ↦
        let ih = find_first-update_where_of p q f ys sub keep (rw e at h) in
        elim (Bool-cases (p y)) [ inl d ↦ rw (d, keep y ∙ e) ih | inr d ↦ rw (d, e) ih ]
  ]
    where
      f' : Option A → Option A
      f' none = none
      f' (some a) = some (f a)

-- What a search over selected rows finds, as a statement about all rows.
module _ {ℓ} {A : Type ℓ} (p q : A → Bool) where
  pub any-select-false :
      (xs : List A) → any q (select p xs) ≡ false → All (λ x. p x ≡ true → q x ≡ false) xs
  unfolding any select
  any-select-false [] h = tt
  any-select-false (x ∷ xs) h = elim (Bool-cases (p x)) [
    | inr out ↦ (λ e. absurd (false≢true (sym out ∙ e)), any-select-false xs (rw out at h))
    | inl here ↦
        let both : q x || any q (select p xs) ≡ false = rw here at h in
        (λ e. ground arith, any-select-false xs (ground arith))
  ]

  pub false-any-select :
      (xs : List A) → All (λ x. p x ≡ true → q x ≡ false) xs → any q (select p xs) ≡ false
  unfolding any select
  false-any-select [] h = refl
  false-any-select (x ∷ xs) (h, hs) = elim (Bool-cases (p x)) [
    | inr out ↦ rw out (false-any-select xs hs)
    | inl here ↦ rw (here, h here) (false-any-select xs hs)
  ]

module _ {ℓ κ} {A : Type ℓ} (P Q R : A → Type κ) where
  pub All-map₂ : (xs : List A) → ((x : A) → P x → Q x → R x) → All P xs → All Q xs → All R xs
  All-map₂ [] f h k = tt
  All-map₂ (x ∷ xs) f (h, hs) (k, ks) = (f x h k, All-map₂ xs f hs ks)

module _ {ℓ} {A : Type ℓ} (q : A → Bool) where
  pub any-append-false :
      (xs ys : List A) → any q (xs ++ ys) ≡ false → (any q xs ≡ false) × (any q ys ≡ false)
  unfolding any
  any-append-false [] ys h = (refl, h)
  any-append-false (x ∷ xs) ys h =
      let (here, rest) = or_false h in
      let (left, right) = any-append-false xs ys rest in (false_or here left, right)

  pub any-map {κ} :
      {B : Type κ} (f : B → A) (xs : List B) → any q (map f xs) ≡ any (λ x. q (f x)) xs
  unfolding any
  any-map f [] = refl
  any-map f (x ∷ xs) = ap (λ b. q (f x) || b) (any-map f xs)

module _ {ℓ κ} {A : Type ℓ} (P Q : A → Type κ) where
  pub All-map : (xs : List A) → ((x : A) → P x → Q x) → All P xs → All Q xs
  All-map [] f h = tt
  All-map (x ∷ xs) f (h, hs) = (f x h, All-map xs f hs)

module _ {ℓ} {A : Type ℓ} (q p : A → Bool) (f : A → A) where
  pub any-update_where_at :
      (xs : List A)
      → ((a : A) → p a ≡ true → q (f a) ≡ q a)
      → any q (update_where p f xs) ≡ any q xs
  unfolding any update_where
  any-update_where_at [] keep = refl
  any-update_where_at (x ∷ xs) keep = elim (Bool-cases (p x)) [
    | inl e ↦ rw (e, keep x e, any-update_where_at xs keep) refl
    | inr e ↦ rw (e, any-update_where_at xs keep) refl
  ]

  pub any-update_where :
      (xs : List A) → ((a : A) → q (f a) ≡ q a) → any q (update_where p f xs) ≡ any q xs
  any-update_where xs keep = any-update_where_at xs (λ a e. keep a)

  -- No row meets the test when the update has reached those that did.
  pub any-update_where-false :
      (xs : List A)
      → ((a : A) → p a ≡ true → q (f a) ≡ false)
      → ((a : A) → p a ≡ false → q a ≡ false)
      → any q (update_where p f xs) ≡ false
  unfolding any update_where
  any-update_where-false [] reached rest = refl
  any-update_where-false (x ∷ xs) reached rest = elim (Bool-cases (p x)) [
    | inl e ↦ rw (e, reached x e) (any-update_where-false xs reached rest)
    | inr e ↦ rw (e, rest x e) (any-update_where-false xs reached rest)
  ]

module _ {ℓ} {A : Type ℓ} where
  -- A weaker test holds of a row too.
  pub any-weaken :
      (p q : A → Bool) (xs : List A)
      → ((a : A) → p a ≡ true → q a ≡ true)
      → any p xs ≡ true
      → any q xs ≡ true
  unfolding any
  any-weaken p q [] w h = absurd (false≢true h)
  any-weaken p q (x ∷ xs) w h = elim (Bool-cases (p x)) [
    | inl e ↦ rw (w x e) refl
    | inr e ↦
        let rest = any-weaken p q xs w (rw e at h) in
        elim (Bool-cases (q x)) [ inl d ↦ rw d refl | inr d ↦ rw d rest ]
  ]

module _ {ℓ} {A : Type ℓ} (q : A → Bool) where
  pub count-append : (xs ys : List A) → count q (xs ++ ys) ≡ count q xs + count q ys
  unfolding count
  count-append [] ys = omega arith
  count-append (x ∷ xs) ys =
      let ih = count-append xs ys in
      elim (Bool-cases (q x)) [ inl e ↦ rw (e, count) (omega arith) | inr e ↦ rw (e, count) ih ]

module _ {ℓ κ μ} {A : Type ℓ} (P : A → Type κ) (Q : A → Type μ) where
  -- An update that brings the rows that it reaches from one predicate to another.
  pub All-update_where :
      (p : A → Bool) (f : A → A) (xs : List A)
      → ((a : A) → p a ≡ true → P a → Q (f a))
      → ((a : A) → p a ≡ false → P a → Q a)
      → All P xs
      → All Q (update_where p f xs)
  unfolding update_where
  All-update_where p f [] reached rest h = tt
  All-update_where p f (y ∷ ys) reached rest (h, hs) = elim (Bool-cases (p y)) [
    | inl e ↦ rw e (reached y e h, All-update_where p f ys reached rest hs)
    | inr e ↦ rw e (rest y e h, All-update_where p f ys reached rest hs)
  ]

module _ {ℓ} {A : Type ℓ} where
  -- An update that keeps what a search looks for.
  pub find_first-update_where_if :
      (p q : A → Bool) (f : A → A) (xs : List A) {x : A}
      → ((a : A) → q (f a) ≡ q a)
      → find_first q xs ≡ some x
      → find_first q (update_where p f xs) ≡ some (if p x then f x else x)
  unfolding find_first update_where
  find_first-update_where_if p q f [] keep h = cc
  find_first-update_where_if p q f (y ∷ ys) {x} keep h = elim (Bool-cases (q y)) [
    | inl e ↦
        let same : some y ≡ some x = rw e at h in
        let y_x : y ≡ x = ap (λ o. get_or o y) same in
        elim (Bool-cases (p y)) [
          | inl d ↦
              rw (d, keep y ∙ e)
                (ap some (ap f y_x) ∙ ap (λ b. some (if b then f x else x)) (sym d ∙ ap p y_x))
          | inr d ↦
              rw (d, e) (ap some y_x ∙ ap (λ b. some (if b then f x else x)) (sym d ∙ ap p y_x))
        ]
    | inr e ↦
        let ih = find_first-update_where_if p q f ys keep (rw e at h) in
        elim (Bool-cases (p y)) [ inl d ↦ rw (d, keep y ∙ e) ih | inr d ↦ rw (d, e) ih ]
  ]

  -- An update that reaches the row that a search finds.
  pub find_first-update_where_at :
      (p q : A → Bool) (f : A → A) (xs : List A) {x : A}
      → p x ≡ true
      → ((a : A) → q (f a) ≡ q a)
      → find_first q xs ≡ some x
      → find_first q (update_where p f xs) ≡ some (f x)
  find_first-update_where_at p q f xs {x} hit keep h =
      find_first-update_where_if p q f xs keep h ∙ ap (λ b. some (if b then f x else x)) hit

  -- A search among selected rows that finds nothing.
  pub find_first-select-none :
      (p q : A → Bool) (xs : List A)
      → All (λ a. q a ≡ true → p a ≡ false) xs
      → find_first p (select q xs) ≡ none
  unfolding find_first select
  find_first-select-none p q [] h = refl
  find_first-select-none p q (x ∷ xs) (h, hs) = elim (Bool-cases (q x)) [
    | inl e ↦ rw (e, h e) (find_first-select-none p q xs hs)
    | inr e ↦ rw e (find_first-select-none p q xs hs)
  ]

module _ {ℓ κ} {A : Type ℓ} (P : A → Type κ) where
  pub find_first-All :
      (p : A → Bool) (xs : List A) {x : A} → find_first p xs ≡ some x → All P xs → P x
  unfolding find_first
  find_first-All p [] h k = cc
  find_first-All p (y ∷ ys) {x} h (k, ks) = elim (Bool-cases (p y)) [
    | inl e ↦ let same : some y ≡ some x = rw e at h in subst P (ap (λ o. get_or o y) same) k
    | inr e ↦ find_first-All p ys (rw e at h) ks
  ]

module _ {ℓ} {A : Type ℓ} (p q : A → Bool) where
  -- An update that reaches no row that a search can find.
  pub find_first-update_where_away :
      (f : A → A) (xs : List A)
      → ((a : A) → p a ≡ true → q a ≡ false)
      → ((a : A) → q (f a) ≡ q a)
      → find_first q (update_where p f xs) ≡ find_first q xs
  unfolding find_first update_where
  find_first-update_where_away f [] away keep = refl
  find_first-update_where_away f (x ∷ xs) away keep = elim (Bool-cases (p x)) [
    | inl e ↦ rw (e, keep x, away x e) (find_first-update_where_away f xs away keep)
    | inr e ↦ rw (e, find_first-update_where_away f xs away keep) refl
  ]

  -- A search among the selected rows, all of which it can find are selected.
  pub find_first-select-all :
      (xs : List A)
      → ((a : A) → q a ≡ true → p a ≡ true)
      → find_first q (select p xs) ≡ find_first q xs
  unfolding find_first select
  find_first-select-all [] sub = refl
  find_first-select-all (x ∷ xs) sub = elim (Bool-cases (p x)) [
    | inl e ↦ rw (e, find_first-select-all xs sub) refl
    | inr e ↦ elim (Bool-cases (q x)) [
      | inl d ↦ absurd (false≢true (sym e ∙ sub x d))
      | inr d ↦ rw (e, d) (find_first-select-all xs sub)
    ]
  ]

  -- A search that an existing row meets finds one.
  pub any-find_first : (xs : List A) → any q xs ≡ true → (x : A) × (find_first q xs ≡ some x)
  unfolding find_first any
  any-find_first [] h = absurd (false≢true h)
  any-find_first (x ∷ xs) h = elim (Bool-cases (q x)) [
    | inl e ↦ (x, rw e refl)
    | inr e ↦ let (y, found) = any-find_first xs (rw e at h) in (y, rw e found)
  ]

module _ {ℓ κ} {A : Type ℓ} (P : A → Type κ) where
  pub All-always : (xs : List A) → ((a : A) → P a) → All P xs
  All-always [] f = tt
  All-always (x ∷ xs) f = (f x, All-always xs f)

module _ {ℓ κ} {A : Type ℓ} (Q : A → Type κ) (p : A → Bool) (f : A → A) where
  -- What an update makes of every row.
  pub All-updated :
      (xs : List A)
      → ((a : A) → p a ≡ true → Q (f a))
      → ((a : A) → p a ≡ false → Q a)
      → All Q (update_where p f xs)
  unfolding update_where
  All-updated [] reached rest = tt
  All-updated (x ∷ xs) reached rest = elim (Bool-cases (p x)) [
    | inl e ↦ rw e (reached x e, All-updated xs reached rest)
    | inr e ↦ rw e (rest x e, All-updated xs reached rest)
  ]

module _ {ℓ} {A : Type ℓ} (p : A → Bool) (f g : A → A) where
  -- An update that a second one undoes.
  pub update_where-undone :
      (xs : List A)
      → ((a : A) → p (f a) ≡ p a)
      → All (λ a. p a ≡ true → g (f a) ≡ a) xs
      → update_where p g (update_where p f xs) ≡ xs
  unfolding update_where
  update_where-undone [] keep h = refl
  update_where-undone (x ∷ xs) keep (h, hs) = elim (Bool-cases (p x)) [
    | inl e ↦ rw (e, keep x ∙ e, h e, update_where-undone xs keep hs) refl
    | inr e ↦ rw (e, e, update_where-undone xs keep hs) refl
  ]
