-- ===== src/Invoices/Sequence.antt =====
-- src/modules/invoices/invoices.service.ts: `nextInvoiceNumber` up to 9999.
use notaryday_backend.Common.{
  ℕ, zero, suc, ◌+◌, ◌/◌, ◌%◌, ◌*◌, ◌<◌, ◌≤◌, ◌≡◌, refl, Bool, true, false, ◌&&◌, ◌==◌, ltb, Option,
  none, some, List, [], ◌∷◌, arith, All, All-map, ◌∙◌, Bool-cases, subst, sym, ◌⊎◌, inl, inr,
}
use notaryday_backend.Schema.{Invoice}
use notaryday_backend.Invoices.Numbers.{seq_text, high_digits, text_ltb, later, last_seq, next_seq}

no_high_digits : (fuel : ℕ) → high_digits fuel 0 ≡ []
unfolding high_digits
no_high_digits zero = refl
no_high_digits (suc n) = refl

-- Four digits.
seq_text_short :
    (n : ℕ) → n < 10000 → seq_text n ≡ n / 1000 % 10 ∷ n / 100 % 10 ∷ n / 10 % 10 ∷ n % 10 ∷ []
unfolding seq_text
seq_text_short n h = let z : n / 10000 ≡ 0 = omega arith in rw (z, no_high_digits n) refl

lexical_order :
    (a b c d a' b' c' d' : ℕ)
    → (b < 10) × (c < 10) × (d < 10) × (b' < 10) × (c' < 10) × (d' < 10)
    → text_ltb (a ∷ b ∷ c ∷ d ∷ []) (a' ∷ b' ∷ c' ∷ d' ∷ [])
      ≡ ltb (a * 1000 + b * 100 + c * 10 + d) (a' * 1000 + b' * 100 + c' * 10 + d')
unfolding text_ltb
lexical_order a b c d a' b' c' d' h = ground arith

from_digits :
    (n : ℕ) → n < 10000 → n / 1000 % 10 * 1000 + n / 100 % 10 * 100 + n / 10 % 10 * 10 + n % 10 ≡ n
from_digits n h = omega arith

text_order : (m n : ℕ) → m < 10000 → n < 10000 → text_ltb (seq_text m) (seq_text n) ≡ ltb m n
text_order m n a b =
    rw (seq_text_short m a, seq_text_short n b)
      (lexical_order _ _ _ _ _ _ _ _
          (omega arith, omega arith, omega arith, omega arith, omega arith, omega arith)
        ∙ (λ k. ltb (from_digits m a k) (from_digits n b k)))

later-cases :
    (m n : ℕ)
    → m < 10000
    → n < 10000
    → ((later (some m) n ≡ n) × (m < n)) ⊎ ((later (some m) n ≡ m) × (n ≤ m))
unfolding later
later-cases m n a b = elim (Bool-cases (ltb m n)) [
  | inl d ↦ inl (rw (text_order m n a b, d) refl, ground (arith, d))
  | inr d ↦ inr (rw (text_order m n a b, d) refl, ground (arith, d))
]

-- The numbers of the user's invoices of the year.
abbrev pub Numbered : ℕ → ℕ → (ℕ → Type 0) → List Invoice → Type 0
Numbered user_id year P is =
    All (λ i. (i.user_id == user_id && i.number_year == year ≡ true) → P i.number_seq) is

module _ (user_id year : ℕ) where
  -- The last number, as a bound on the others.
  abbrev IsLast : Option ℕ → List Invoice → Type 0
  IsLast none is = Numbered user_id year (λ n. ⊥) is
  IsLast (some m) is = (m < 10000) × Numbered user_id year (λ n. n ≤ m) is

  abbrev is_numbered : Invoice → Bool
  is_numbered i = i.user_id == user_id && i.number_year == year

  IsLast-skip :
      (i : Invoice) (is : List Invoice) (o : Option ℕ)
      → is_numbered i ≡ false
      → IsLast o is
      → IsLast o (i ∷ is)
  IsLast-skip i is none e h = (ground arith, h)
  IsLast-skip i is (some m) e (b, h) = (b, (ground arith, h))

  IsLast-add :
      (i : Invoice) (is : List Invoice) (o : Option ℕ)
      → is_numbered i ≡ true
      → i.number_seq < 10000
      → IsLast o is
      → IsLast (some (later o i.number_seq)) (i ∷ is)
  unfolding later
  IsLast-add i is none e b h = (b, ((λ _. omega arith), All-map _ _ is (λ j n t. elim (n t) [ ]) h))
  IsLast-add i is (some m) e b (c, h) = elim (later-cases m i.number_seq c b) [
    | inl (k, d) ↦
        subst (λ n. IsLast (some n) (i ∷ is)) (sym k)
          (b, ((λ _. omega arith), All-map _ _ is (λ j n t. ground (arith, n t, d)) h))
    | inr (k, d) ↦ subst (λ n. IsLast (some n) (i ∷ is)) (sym k) (c, ((λ _. d), h))
  ]

  last_seq-IsLast :
      (is : List Invoice)
      → Numbered user_id year (λ n. n < 10000) is
      → IsLast (last_seq user_id year is) is
  unfolding last_seq
  last_seq-IsLast [] h = h
  last_seq-IsLast (i ∷ is) (h, hs) = elim (Bool-cases (is_numbered i)) [
    | inl e ↦ rw e (IsLast-add i is _ e (h e) (last_seq-IsLast is hs))
    | inr e ↦ rw e (IsLast-skip i is _ e (last_seq-IsLast is hs))
  ]

  -- While the user's invoices of the year have numbers below 10000, the number that `generate` takes
  -- next is above all of them.
  pub next_seq_fresh :
      (is : List Invoice)
      → Numbered user_id year (λ n. n < 10000) is
      → Numbered user_id year (λ n. n < next_seq user_id year is) is
  unfolding next_seq
  next_seq_fresh is h = above (last_seq user_id year is) (last_seq-IsLast is h)
    where
      above :
          (o : Option ℕ)
          → IsLast o is
          → Numbered user_id year (λ n. n < (elim o [ none ↦ 1 | some k ↦ k + 1 ])) is
      above none k = All-map _ _ is (λ j n t. elim (n t) [ ]) k
      above (some m) (b, k) = All-map _ _ is (λ j n t. ground (arith, n t)) k
