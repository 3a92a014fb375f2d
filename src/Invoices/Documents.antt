-- ===== src/Invoices/Documents.antt =====
-- src/workers/invoice.processor.ts: which document the link of an invoice serves.
use mathlib.Core.Bool.{false≢true}
use notaryday_backend.Common.{
  find_first-update_where_away, ℕ, ◌≡◌, refl, Bool, true, false, ◌&&◌, ◌==◌, not, Option, some,
  List, ◌∷◌, find_first, update_where, Bool-cases, inl, inr, arith, if◌then◌else◌, select, ◌∙◌, sym,
  ap, All-update_where, subst,
}
use notaryday_backend.Schema.{Invoice, Store, StoredPdf, PdfUrl}
use notaryday_backend.Tables.{update_invoice}
use notaryday_backend.Invoices.Worker.{handle_generate_pdf, put_object, has_key}
use notaryday_backend.Invoices.Attempts.{RowIs, updated-RowIs}

-- The link to the document of an invoice.
abbrev pub link_of : ℕ → Invoice → PdfUrl
link_of now i = record { number_year = i.number_year; number_seq = i.number_seq; version = now }

abbrev pub stored : Invoice → StoredPdf
stored i = record { number_year = i.number_year; number_seq = i.number_seq; shows = i }

abbrev pub filed : ℕ → Invoice → Invoice
filed now i = record i { pdf_url = some (link_of now i); pdf_pending = false }

abbrev pub same_number : Invoice → Invoice → Bool
same_number a b = a.number_year == b.number_year && a.number_seq == b.number_seq

-- What a link serves.
abbrev pub served : PdfUrl → Store → Option StoredPdf
served url s = find_first (has_key url.number_year url.number_seq) s.pdfs

abbrev Filed : ℕ → ℕ → Invoice → Store → Store → Type 0
Filed now id i s t =
    (t.invoices
      ≡ update_where (λ r. r.id == id)
          (λ r. record r { pdf_url = some (link_of now i); pdf_pending = false }) s.invoices)
    × (t.pdfs ≡ stored i ∷ select (λ d. not (has_key i.number_year i.number_seq d)) s.pdfs)

handle_generate_pdf-Filed :
    (now : ℕ) (for_edit : Bool) (id user_id : ℕ) (i : Invoice) (s : Store)
    → RowIs id i s.invoices
    → Filed now id i s (handle_generate_pdf now true for_edit id user_id s).1
unfolding handle_generate_pdf put_object update_invoice
handle_generate_pdf-Filed now true id user_id i s row = rw row.0 (refl, refl)
handle_generate_pdf-Filed now false id user_id i s row = rw row.0 (refl, refl)

-- An update of another row.
module _ (id other : ℕ) (f : Invoice → Invoice) (differ : (id == other) ≡ false)
    (keep : (a : Invoice) → (f a).id ≡ a.id) where
  not_mine : (a : Invoice) → (a.id == other) ≡ true → ((f a).id == id) ≡ false
  not_mine a e = let same = keep a in ground (arith, e, same, differ)

  other-RowIs :
      (i : Invoice) (is : List Invoice)
      → RowIs id i is
      → RowIs id i (update_where (λ r. r.id == other) f is)
  other-RowIs i is (here, only) = (
    find_first-update_where_away (λ r. r.id == other) (λ r. r.id == id) f is
          (λ a e. ground (arith, e, differ)) (λ a. ap (λ n. n == id) (keep a))
        ∙ here,
    All-update_where (λ r. (r.id == id) ≡ true → r ≡ i) (λ r. (r.id == id) ≡ true → r ≡ i)
        (λ r. r.id == other) f is (λ a e same h. absurd (false≢true (sym (not_mine a e) ∙ h)))
        (λ a e same. same) only,
  )

-- The objects after two uploads.
first_of_two :
    (a b : Invoice) (ds : List StoredPdf)
    → find_first (has_key a.number_year a.number_seq) (
        stored b
        ∷ select
            (λ d. not (has_key b.number_year b.number_seq d))
            (stored a ∷ select (λ d. not (has_key a.number_year a.number_seq d)) ds))
      ≡ some (stored (if same_number a b then b else a))
unfolding find_first select
first_of_two a b ds = elim (Bool-cases (same_number a b)) [
  | inl e ↦
      let hit : has_key a.number_year a.number_seq (stored b) ≡ true = ground (arith, e) in
      rw (e, hit) refl
  | inr e ↦
      let miss : has_key a.number_year a.number_seq (stored b) ≡ false = ground (arith, e) in
      let own : has_key a.number_year a.number_seq (stored a) ≡ true = ground arith in
      rw (e, miss, own) refl
]

-- The document of one invoice is made, then that of another. The link in the row of the first one
-- serves the first invoice exactly if the two numbers differ, and if they are equal, which is possible
-- for two users, it serves the document of the other user's invoice.
pub document_of_two :
    (now later : ℕ) (for_edit for_edit' : Bool) (id other user_id other_user : ℕ) (a b : Invoice)
    (s : Store)
    → RowIs id a s.invoices
    → RowIs other b s.invoices
    → (id == other) ≡ false
    → let t =
        (handle_generate_pdf later true for_edit' other other_user
          (handle_generate_pdf now true for_edit id user_id s).1).1 in
      RowIs id (filed now a) t.invoices
      × (served (link_of now a) t ≡ some (stored (if same_number a b then b else a)))
document_of_two now later for_edit for_edit' id other user_id other_user a b s row_a row_b differ =
    let s1 : Store = (handle_generate_pdf now true for_edit id user_id s).1 in
    let (rows1, pdfs1) = handle_generate_pdf-Filed now for_edit id user_id a s row_a in
    let differ' : (other == id) ≡ false = ground (arith, differ) in
    let b1 : RowIs other b s1.invoices =
      subst (RowIs other b) (sym rows1)
        (other-RowIs other id _ differ' (λ r. refl) b s.invoices row_b) in
    let a1 : RowIs id (filed now a) s1.invoices =
      subst (RowIs id (filed now a)) (sym rows1)
        (updated-RowIs id a s.invoices row_a _ (λ r. refl)) in
    let (rows2, pdfs2) = handle_generate_pdf-Filed later for_edit' other other_user b s1 b1 in
    (
      subst (RowIs id (filed now a)) (sym rows2)
          (other-RowIs id other _ differ (λ r. refl) (filed now a) s1.invoices a1),
      ap (find_first (has_key a.number_year a.number_seq)) (
            pdfs2
            ∙ ap (λ ds. stored b ∷ select (λ d. not (has_key b.number_year b.number_seq d)) ds)
                pdfs1)
          ∙ first_of_two a b s.pdfs,
    )
