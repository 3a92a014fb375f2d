-- ===== src/Invoices/Totals.antt =====
-- src/modules/invoices/invoices.service.ts: the sums of `findStats`.
use notaryday_backend.Common.{
  ℕ, ◌+◌, ◌≤◌, ◌≡◌, refl, not, ◌&&◌, ◌==◌, is_some, List, [], ◌∷◌, select, arith,
}
use notaryday_backend.Schema.{Invoice, Store, Env, ok}
use notaryday_backend.Invoices.Edits.{Stats, no_stats, count_row, count_rows, fee_of, find_stats}

-- Every amount billed is paid or outstanding, and what is overdue is outstanding.
abbrev pub IsBalanced : Stats → Type 0
IsBalanced st = (st.billed ≡ st.paid + st.outstanding) × (st.overdue ≤ st.outstanding)

count_row-IsBalanced :
    (now : ℕ) (job_fee : Invoice → ℕ) (st : Stats) (i : Invoice)
    → IsBalanced st
    → IsBalanced (count_row now job_fee st i)
unfolding count_row
count_row-IsBalanced now job_fee st i h = ground arith

count_rows-IsBalanced :
    (now : ℕ) (job_fee : Invoice → ℕ) (is : List Invoice) (st : Stats)
    → IsBalanced st
    → IsBalanced (count_rows now job_fee st is)
unfolding count_rows
count_rows-IsBalanced now job_fee [] st h = h
count_rows-IsBalanced now job_fee (i ∷ is) st h =
    count_rows-IsBalanced now job_fee is (count_row now job_fee st i)
      (count_row-IsBalanced now job_fee st i h)

-- The statistics are always given, change nothing, and balance: what is billed is paid or
-- outstanding, and what is overdue is outstanding.
pub find_stats-IsBalanced :
    (env : Env) (user_id : ℕ) (s : Store)
    → (st : Stats) × (find_stats env user_id s ≡ (ok st, s)) × IsBalanced st
unfolding find_stats
find_stats-IsBalanced env user_id s = (
  _,
  refl,
  count_rows-IsBalanced env.now (fee_of s)
      (select (λ i. i.user_id == user_id && not (is_some i.deleted_at)) s.invoices) no_stats
      (refl, ground arith),
)
