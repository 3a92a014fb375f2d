-- ===== src/Invoices/Numbers.antt =====
-- `nextInvoiceNumber`: the last number of the year in the order of the texts, plus one.
use notaryday_backend.Common.{
  ℕ, zero, suc, ◌+◌, ◌/◌, ◌%◌, Bool, true, false, ◌&&◌, ◌==◌, ltb, Option, none, some, List, [],
  ◌∷◌, ◌++◌, if◌then◌else◌,
}
use notaryday_backend.Schema.{Invoice}

-- The decimal digits of a number, none for 0; `fuel` is at least the number itself.
unfoldable pub high_digits : ℕ → ℕ → List ℕ
high_digits zero n = []
high_digits (suc fuel) n =
    let rest = high_digits fuel (n / 10) ++ n % 10 ∷ [] in if n == 0 then [] else rest

-- `String(seq).padStart(4, '0')`
unfoldable pub seq_text : ℕ → List ℕ
unfolding high_digits
seq_text n = high_digits n (n / 10000) ++ (n / 1000 % 10 ∷ n / 100 % 10 ∷ n / 10 % 10 ∷ n % 10 ∷ [])

-- The order of texts.
unfoldable pub text_ltb : List ℕ → List ℕ → Bool
text_ltb [] [] = false
text_ltb [] (_ ∷ _) = true
text_ltb (_ ∷ _) [] = false
text_ltb (a ∷ xs) (b ∷ ys) = if a == b then text_ltb xs ys else ltb a b

-- The greater of two sequence numbers, by their texts.
unfoldable pub later : Option ℕ → ℕ → ℕ
unfolding seq_text text_ltb
later none n = n
later (some m) n = if text_ltb (seq_text m) (seq_text n) then n else m

-- `findFirst({ where: { user_id, startsWith: INV-<year> }, orderBy: { invoice_number: 'desc' } })`
unfoldable pub last_seq : ℕ → ℕ → List Invoice → Option ℕ
unfolding later
last_seq user_id year [] = none
last_seq user_id year (i ∷ is) =
    let rest = last_seq user_id year is in
    if i.user_id == user_id && i.number_year == year then some (later rest i.number_seq) else rest

unfoldable pub next_seq : ℕ → ℕ → List Invoice → ℕ
unfolding last_seq
next_seq user_id year is = elim (last_seq user_id year is) [ none ↦ 1 | some n ↦ n + 1 ]
