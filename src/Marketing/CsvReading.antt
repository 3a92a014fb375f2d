-- ===== src/Marketing/CsvReading.antt =====
-- src/modules/marketing/csv.util.ts: an export reads back.
use Prim.Native.Char.{Char}
use notaryday_backend.Common.{
  ◌≡◌, refl, ap, ◌∙◌, sym, String, false, List, [], ◌∷◌, Bool-cases, inl, inr, or_false, All, map,
  Option, none, some,
}
use notaryday_backend.Marketing.Csv.{
  append, is_quote, is_comma, is_newline, is_special, has_special, double_quotes, quote_char,
  escape, csv_cell, csv_row, to_csv, add_char, read, read_csv, prepend, Parsed, at_start, plain,
  quoted, after_quote,
}

-- A text after which a field is over.
record IsEnd (t : String) : Type 0 where
  unquoted : read at_start t ≡ read plain t
  closed : read after_quote t ≡ read plain t

ordinary_char :
    (c : Char)
    → is_special c ≡ false
    → (is_quote c ≡ false) × (is_comma c ≡ false) × (is_newline c ≡ false)
ordinary_char c h =
    let (q, r) = or_false {a = is_quote c} h in
    let (k, l) = or_false {a = is_comma c} r in (q, k, (or_false {a = is_newline c} l).0)

read_plain :
    (s t : String) → has_special s ≡ false → read plain (append s t) ≡ prepend s (read plain t)
unfolding has_special append prepend read
read_plain String.[] t h = refl
read_plain (String.◌∷◌ c s) t h =
    let (here, rest) = or_false {a = is_special c} h in
    let (q, k, n) = ordinary_char c here in rw (k, n) (ap (add_char c) (read_plain s t rest))

read_start :
    (s t : String)
    → has_special s ≡ false
    → IsEnd t
    → read at_start (append s t) ≡ prepend s (read plain t)
unfolding has_special append prepend read
read_start String.[] t h e = e.unquoted
read_start (String.◌∷◌ c s) t h e =
    let (here, rest) = or_false {a = is_special c} h in
    let (q, k, n) = ordinary_char c here in rw (q, k, n) (ap (add_char c) (read_plain s t rest))

append_assoc : (s t u : String) → append (append s t) u ≡ append s (append t u)
unfolding append
append_assoc String.[] t u = refl
append_assoc (String.◌∷◌ c s) t u = ap (String.◌∷◌ c) (append_assoc s t u)

append_nil : (s : String) → append s String.[] ≡ s
unfolding append
append_nil String.[] = refl
append_nil (String.◌∷◌ c s) = ap (String.◌∷◌ c) (append_nil s)

read-quoted :
    (s t : String)
    → read quoted (append (double_quotes s) (String.◌∷◌ quote_char t))
      ≡ prepend s (read after_quote t)
unfolding double_quotes append prepend read
read-quoted String.[] t = refl
read-quoted (String.◌∷◌ c s) t = elim (Bool-cases (is_quote c)) [
  | inl q ↦ rw (q, q, q) (ap (add_char c) (read-quoted s t))
  | inr q ↦ rw (q, q) (ap (add_char c) (read-quoted s t))
]

closing :
    (s t : String)
    → IsEnd t
    → read at_start (
        append
          (String.◌∷◌ quote_char (append (double_quotes s) (String.◌∷◌ quote_char String.[])))
          t)
      ≡ prepend s (read plain t)
unfolding append read
closing s t e =
    let flat = append_assoc (double_quotes s) (String.◌∷◌ quote_char String.[]) t in
    let one = read-quoted s t in let last = ap (prepend s) e.closed in rw flat (one ∙ last)

-- A cell reads back as the value that was written.
read-escape :
    (s t : String) → IsEnd t → read at_start (append (escape s) t) ≡ prepend s (read plain t)
unfolding escape
read-escape s t e = elim (Bool-cases (has_special s)) [
  | inl h ↦ rw h (closing s t e)
  | inr h ↦ rw h (read_start s t h e)
]

abbrev pub value_of : Option String → String
value_of none = String.[]
value_of (some s) = s

abbrev pub values_of : List (Option String) → List String
values_of [] = []
values_of (c ∷ cs) = value_of c ∷ values_of cs

read_cell :
    (c : Option String) (t : String)
    → IsEnd t
    → read at_start (append (csv_cell c) t) ≡ prepend (value_of c) (read plain t)
unfolding append prepend
read_cell none t e = e.unquoted
read_cell (some s) t e = read-escape s t e

prepend_empty :
    (s : String) (fields : List String) (rows : List (List String))
    → prepend s (record { field = String.[]; fields = fields; rows = rows })
      ≡ record { field = s; fields = fields; rows = rows }
unfolding prepend
prepend_empty String.[] fields rows = refl
prepend_empty (String.◌∷◌ c s) fields rows = ap (add_char c) (prepend_empty s fields rows)

abbrev next_field : Parsed → Parsed
next_field p = record { field = String.[]; fields = p.field ∷ p.fields; rows = p.rows }

comma-IsEnd : (s t : String) → IsEnd (append (String.◌∷◌ "," s) t)
unfolding append read
comma-IsEnd s t = record { unquoted = refl; closed = refl }

comma_plain :
    (s t : String)
    → read plain (append (String.◌∷◌ "," s) t) ≡ next_field (read at_start (append s t))
unfolding append read
comma_plain s t = refl

-- A row, before an end with nothing left of the row.
read_row :
    (c : Option String) (cs : List (Option String)) (t : String) (rest : List (List String))
    → IsEnd t
    → read plain t ≡ record { field = String.[]; fields = []; rows = rest }
    → read at_start (append (csv_row (c ∷ cs)) t)
      ≡ record { field = value_of c; fields = values_of cs; rows = rest }
unfolding csv_row
read_row c [] t rest e done =
    read_cell c t e ∙ (ap (prepend (value_of c)) done ∙ prepend_empty (value_of c) [] rest)
read_row c (d ∷ ds) t rest e done =
    let row = csv_row (d ∷ ds) in
    let flat = ap (read at_start) (append_assoc (csv_cell c) (String.◌∷◌ "," row) t) in
    let cell = read_cell c (append (String.◌∷◌ "," row) t) (comma-IsEnd row t) in
    let next = comma_plain row t ∙ ap next_field (read_row d ds t rest e done) in
    flat
    ∙ (cell
        ∙ (ap (prepend (value_of c)) next
            ∙ prepend_empty (value_of c) (value_of d ∷ values_of ds) rest))

-- A row has a cell.
abbrev pub IsFilled : List (Option String) → Type 0
IsFilled [] = ⊥
IsFilled (_ ∷ _) = Unit

read_filled :
    (r : List (Option String)) (t : String) (rest : List (List String))
    → IsFilled r
    → IsEnd t
    → read plain t ≡ record { field = String.[]; fields = []; rows = rest }
    → read_csv (append (csv_row r) t) ≡ values_of r ∷ rest
unfolding read_csv
read_filled [] t rest h e done = absurd h
read_filled (c ∷ cs) t rest h e done =
    ap (λ p. (p.field ∷ p.fields) ∷ p.rows) (read_row c cs t rest e done)

nil-IsEnd : IsEnd String.[]
unfolding read
nil-IsEnd = record { unquoted = refl; closed = refl }

nil_plain : read plain String.[] ≡ record { field = String.[]; fields = []; rows = [] }
unfolding read
nil_plain = refl

newline-IsEnd : (s : String) → IsEnd (String.◌∷◌ "\n" s)
unfolding read
newline-IsEnd s = record { unquoted = refl; closed = refl }

newline_plain :
    (s : String)
    → read plain (String.◌∷◌ "\n" s) ≡ record { field = String.[]; fields = []; rows = read_csv s }
unfolding read read_csv
newline_plain s = refl

-- An export of at least one row, each of at least one cell, reads back as the texts of its cells,
-- whatever commas, quotes and line breaks they hold; a missing cell reads back as the empty text.
pub read_csv-to_csv :
    (r : List (Option String)) (rs : List (List (Option String)))
    → All IsFilled (r ∷ rs)
    → read_csv (to_csv (r ∷ rs)) ≡ map values_of (r ∷ rs)
unfolding to_csv
read_csv-to_csv r [] (h, hs) =
    ap read_csv (sym (append_nil (csv_row r))) ∙ read_filled r String.[] [] h nil-IsEnd nil_plain
read_csv-to_csv r (q ∷ rs) (h, hs) =
    read_filled r (String.◌∷◌ "\n" (to_csv (q ∷ rs))) _ h (newline-IsEnd (to_csv (q ∷ rs)))
      (newline_plain (to_csv (q ∷ rs)))
    ∙ ap (λ rows. values_of r ∷ rows) (read_csv-to_csv q rs hs)
