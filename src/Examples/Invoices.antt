-- ===== src/Examples/Invoices.antt =====
-- Runs of the invoices service (src/modules/invoices/invoices.service.ts).
use notaryday_backend.Common.{ℕ, ◌≡◌, ◌<◌, none, some, [], ◌∷◌, arith}
use notaryday_backend.Schema.{Store, complete, ok}
use notaryday_backend.Invoices.Edits.{UpdateInvoiceDto, Stats, find_stats}
use notaryday_backend.Invoices.Totals.{IsBalanced, find_stats-IsBalanced}
use notaryday_backend.Invoices.Numbers.{next_seq}
use notaryday_backend.Invoices.Sequence.{Numbered, next_seq_fresh}
use notaryday_backend.Examples.{env, job, invoice, rows}

-- The job is complete, and its invoice is not yet made.
abbrev complete_rows : Store
complete_rows = record rows {
  jobs = record job { status = complete } ∷ [];
  invoices = record invoice { job_id = 4 } ∷ [];
}

abbrev cheaper : UpdateInvoiceDto
cheaper = record {
  recipient_name = none;
  recipient_email = some "dee@example.com";
  final_fee = some 100;
  note_to_client = none;
}

find_stats-IsBalanced_example :
    (st : Stats) × (find_stats env 1 rows ≡ (ok st, rows)) × IsBalanced st
find_stats-IsBalanced_example = find_stats-IsBalanced env 1 rows

-- Another request makes the job's invoice after this one has read the last number.
abbrev other_makes_it : ℕ → Store → Store
other_makes_it n s = record s { invoices = invoice ∷ s.invoices }

next_seq_fresh_example : Numbered 1 2026 (λ n. n < next_seq 1 2026 rows.invoices) rows.invoices
next_seq_fresh_example = next_seq_fresh 1 2026 rows.invoices ((λ _. omega arith), tt)
