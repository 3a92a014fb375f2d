-- ===== src/Marketing/Csv.antt =====
-- src/modules/marketing/csv.util.ts: the text of an export, and a reader of CSV (RFC 4180, with rows
-- that end in a line feed) that is written without it.
--
-- A cell is missing (`null`, `undefined`) or the text that `String` or `toISOString` makes of it.
use Prim.Native.Char.{Char, code}
use notaryday_backend.Common.{
  String, Bool, false, ◌||◌, ◌==◌, List, [], ◌∷◌, Option, none, some, if◌then◌else◌,
}

-- `+` on strings.
unfoldable pub append : String → String → String
append String.[] t = t
append (String.◌∷◌ c s) t = String.◌∷◌ c (append s t)

abbrev pub is_quote : Char → Bool
is_quote c = code c == 34

abbrev pub is_comma : Char → Bool
is_comma c = code c == 44

abbrev pub is_newline : Char → Bool
is_newline c = code c == 10

abbrev pub is_special : Char → Bool
is_special c = is_quote c || (is_comma c || (is_newline c || code c == 13))

-- `/[",\n\r]/.test(s)`
unfoldable pub has_special : String → Bool
has_special String.[] = false
has_special (String.◌∷◌ c s) = is_special c || has_special s

-- `s.replace(/"/g, '""')`
unfoldable pub double_quotes : String → String
double_quotes String.[] = String.[]
double_quotes (String.◌∷◌ c s) =
    let rest = double_quotes s in
    if is_quote c then String.◌∷◌ c (String.◌∷◌ c rest) else String.◌∷◌ c rest

abbrev pub quote_char : Char
quote_char = "\""

-- `escape`
unfoldable pub escape : String → String
unfolding append has_special double_quotes
escape s =
    if has_special s
    then String.◌∷◌ quote_char (append (double_quotes s) (String.◌∷◌ quote_char String.[]))
    else s

abbrev pub csv_cell : Option String → String
csv_cell none = String.[]
csv_cell (some s) = escape s

-- `row.map(csvCell).join(',')`
unfoldable pub csv_row : List (Option String) → String
unfolding append escape
csv_row [] = String.[]
csv_row (c ∷ []) = csv_cell c
csv_row (c ∷ d ∷ cs) = append (csv_cell c) (String.◌∷◌ "," (csv_row (d ∷ cs)))

-- `toCsv`
unfoldable pub to_csv : List (List (Option String)) → String
unfolding append csv_row
to_csv [] = String.[]
to_csv (r ∷ []) = csv_row r
to_csv (r ∷ q ∷ rs) = append (csv_row r) (String.◌∷◌ "\n" (to_csv (q ∷ rs)))

-- The reader: what is left of the field, of the row and of the rows.
pub record Parsed : Type 0 where
  pub field : String
  pub fields : List String
  pub rows : List (List String)

pub data Mode : Type 0 where
  at_start plain quoted after_quote : Mode

abbrev pub after_other : Char → Mode
after_other c = if is_comma c || is_newline c then at_start else plain

abbrev pub next_mode : Mode → Char → Mode
next_mode at_start c = if is_quote c then quoted else after_other c
next_mode plain c = after_other c
next_mode quoted c = if is_quote c then after_quote else quoted
next_mode after_quote c = if is_quote c then quoted else after_other c

abbrev pub add_char : Char → Parsed → Parsed
add_char c p = record p { field = String.◌∷◌ c p.field }

abbrev pub add_other : Char → Parsed → Parsed
add_other c p =
    if is_comma c
    then record { field = String.[]; fields = p.field ∷ p.fields; rows = p.rows }
    else if is_newline c
    then record { field = String.[]; fields = []; rows = (p.field ∷ p.fields) ∷ p.rows }
    else add_char c p

abbrev pub add : Mode → Char → Parsed → Parsed
add at_start c p = if is_quote c then p else add_other c p
add plain c p = add_other c p
add quoted c p = if is_quote c then p else add_char c p
add after_quote c p = if is_quote c then add_char c p else add_other c p

unfoldable pub read : Mode → String → Parsed
read mode String.[] = record { field = String.[]; fields = []; rows = [] }
read mode (String.◌∷◌ c s) = let rest = read (next_mode mode c) s in add mode c rest

unfoldable pub read_csv : String → List (List String)
unfolding read
read_csv s = let p = read at_start s in (p.field ∷ p.fields) ∷ p.rows

unfoldable pub prepend : String → Parsed → Parsed
prepend String.[] p = p
prepend (String.◌∷◌ c s) p = add_char c (prepend s p)
