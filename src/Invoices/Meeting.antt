-- ===== src/Invoices/Meeting.antt =====
-- src/modules/invoices/invoices.service.ts: `generate` for a job that has an invoice, or gets one from
-- another request meanwhile.
use notaryday_backend.Common.{
  ℕ, ◌≡◌, String, true, false, ◌==◌, Option, none, some, is_some, List, update_where, or_else,
  or_text,
}
use notaryday_backend.Schema.{Job, Invoice, Store, Result, ok}
use notaryday_backend.Invoices.{invoice_for}

-- The invoice `i` of a job is in the table `t`: it was there when the request came, or another request
-- made it after this one had read the last number.
pub data Meets (other_calls : ℕ → Store → Store) (job : Job) (s : Store) (i : Invoice) (t : Store)
    : Type 0 where
  earlier : invoice_for job.id s ≡ some i → t ≡ s → Meets other_calls job s i t
  raced :
      invoice_for job.id s ≡ none
      → t ≡ other_calls 1 s
      → invoice_for job.id t ≡ some i
      → Meets other_calls job s i t

-- The same invoice, but for its recipient and whether its document is under way.
pub record IsSame (i k : Invoice) : Type 0 where
  pub id : k.id ≡ i.id
  pub user_id : k.user_id ≡ i.user_id
  pub job_id : k.job_id ≡ i.job_id
  pub number_year : k.number_year ≡ i.number_year
  pub number_seq : k.number_seq ≡ i.number_seq
  pub subtotal : k.subtotal ≡ i.subtotal
  pub travel_fee : k.travel_fee ≡ i.travel_fee
  pub total : k.total ≡ i.total
  pub is_paid : k.is_paid ≡ i.is_paid
  pub sent_at : k.sent_at ≡ i.sent_at
  pub pdf_url : k.pdf_url ≡ i.pdf_url

-- A request that answers with the invoice `i` of the table `is`, and adds none.
pub record IsReused (is : List Invoice) (i : Invoice) (out : Result (Option Invoice) × Store)
    : Type 0 where
  pub answer : Invoice
  pub answered : out.0 ≡ ok (some answer)
  pub same : IsSame i answer
  pub drawn : is_some i.pdf_url ≡ false → answer.pdf_pending ≡ true
  pub alter : Invoice → Invoice
  pub keeps : (k : Invoice) → IsSame k (alter k)
  pub rows : out.1.invoices ≡ update_where (λ k. k.id == i.id) alter is

module _ (i : Invoice) (email : String) (name : Option String) where
  abbrev readdressed : Invoice → Invoice
  readdressed k = record k {
    recipient_email = or_text email i.recipient_email;
    recipient_name = or_else name i.recipient_name;
  }

  abbrev redrawn : Invoice → Invoice
  redrawn k = record (readdressed k) { pdf_pending = true }
