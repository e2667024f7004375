-- ===== src/Csv/Exports.antt =====
-- What the reader makes of an export.
use mathlib.Core.List.{append_assoc, append-nil}
use babushop_wifi.Base.{
  ℕ, ◌≡◌, refl, ap, sym, ◌∙◌, arith, Text, codes, Bool, true, false, List, [], ◌∷◌, ◌++◌, map, ◌==◌,
  if◌then◌else◌, select, Bool-cases, ==_iff, inl, inr,
}
use babushop_wifi.Base.Chars.{join}
use babushop_wifi.Crypto.{csv_cell, starts_formula, double_quotes}
use babushop_wifi.Csv.{
  Reader, is_filled, with_row, begins, read_char, read_all, last_row, fresh, parse_csv, ExportRow,
  export_line, voucher_export,
}

abbrev within : List (List Text) → List Text → Text → Bool → Reader
within rows row field quoted = record {
  rows = rows;
  row = row;
  field = field;
  quoted = quoted;
  skipping = false;
}

-- The text that a cell shows: the value, behind an apostrophe where a spreadsheet would run it.
abbrev pub shown_text : Text → Text
shown_text t = (if starts_formula t then 39 ∷ [] else []) ++ t

abbrev pub shown_row : ExportRow → List Text
shown_row v =
    shown_text v.code ∷ shown_text v.package_name ∷ shown_text v.price ∷ shown_text v.duration ∷ []

read_char-quoted :
    (rows : List (List Text)) (row : List Text) (f : Text) (c : ℕ) (rest : Text)
    → (c == 34) ≡ false
    → read_char (within rows row f true) c rest ≡ within rows row (f ++ c ∷ []) true
unfolding read_char
read_char-quoted rows row f c rest h = rw (read_char, h) refl

-- Up to the quote that closes a cell, doubled quotes are read as one.
read_all-double_quotes :
    (rows : List (List Text)) (row : List Text) (f t rest : Text)
    → begins 34 rest ≡ false
    → read_all (within rows row f true) (double_quotes t ++ 34 ∷ rest)
      ≡ read_all (within rows row (f ++ t) false) rest
unfolding read_all read_char
read_all-double_quotes rows row f [] rest h = rw (h, append-nil f) refl
read_all-double_quotes rows row f (c ∷ t) rest h =
    let onward : read_all (within rows row (f ++ c ∷ []) true) (double_quotes t ++ 34 ∷ rest)
        ≡ read_all (within rows row (f ++ (c ∷ t)) false) rest =
      read_all-double_quotes rows row (f ++ c ∷ []) t rest h
      ∙ ap (λ x. read_all (within rows row x false) rest) (append_assoc f (c ∷ []) t) in
    elim (Bool-cases (c == 34)) [
      | inl quote ↦ rw quote (
          ap (λ x. read_all (within rows row (f ++ x ∷ []) true) (double_quotes t ++ 34 ∷ rest))
            (sym ((==_iff c 34).0 quote))
          ∙ onward)
      | inr other ↦ rw other (
          ap (λ s. read_all s (double_quotes t ++ 34 ∷ rest))
            (read_char-quoted rows row f c (double_quotes t ++ 34 ∷ rest) other)
          ∙ onward)
    ]

double_quotes-append : (p t : Text) → double_quotes (p ++ t) ≡ double_quotes p ++ double_quotes t
double_quotes-append [] t = refl
double_quotes-append (c ∷ p) t = ground (arith, double_quotes-append p t)

-- A cell is read as the text that it shows.
read_all-csv_cell :
    (rows : List (List Text)) (row : List Text) (t rest : Text)
    → begins 34 rest ≡ false
    → read_all (within rows row [] false) (csv_cell t ++ rest)
      ≡ read_all (within rows row (shown_text t) false) rest
unfolding read_all read_char csv_cell
read_all-csv_cell rows row t rest h = elim (Bool-cases (starts_formula t)) [
  | inl formula ↦
      rw (formula, append_assoc (double_quotes t) (34 ∷ []) rest)
        (read_all-double_quotes rows row (39 ∷ []) t rest h)
  | inr plain ↦
      rw (plain, append_assoc (double_quotes t) (34 ∷ []) rest)
        (read_all-double_quotes rows row [] t rest h)
]

-- A cell with the comma behind it joins the row.
read_all-comma :
    (rows : List (List Text)) (row : List Text) (t rest : Text)
    → read_all (within rows row [] false) (csv_cell t ++ 44 ∷ rest)
      ≡ read_all (within rows (row ++ shown_text t ∷ []) [] false) rest
unfolding read_all read_char
read_all-comma rows row t rest = read_all-csv_cell rows row t (44 ∷ rest) refl

export_line-append :
    (v : ExportRow) (rest : Text)
    → export_line v ++ rest
      ≡ csv_cell v.code
        ++ 44
          ∷ (csv_cell v.package_name
              ++ 44 ∷ (csv_cell v.price ++ 44 ∷ (csv_cell v.duration ++ rest)))
unfolding join export_line
export_line-append v rest =
    append_assoc (csv_cell v.code) _ rest
    ∙ ap (λ x. csv_cell v.code ++ 44 ∷ x)
        (append_assoc (csv_cell v.package_name) _ rest
          ∙ ap (λ x. csv_cell v.package_name ++ 44 ∷ x) (append_assoc (csv_cell v.price) _ rest))

-- A line of the export is read up to its end, whatever is behind it but a quote.
read_all-export_line :
    (rows : List (List Text)) (v : ExportRow) (rest : Text)
    → begins 34 rest ≡ false
    → read_all (fresh rows) (export_line v ++ rest)
      ≡ read_all
          (within rows
            (shown_text v.code ∷ shown_text v.package_name ∷ shown_text v.price ∷ [])
            (shown_text v.duration)
            false)
          rest
read_all-export_line rows v rest h =
    ap (read_all (fresh rows)) (export_line-append v rest)
    ∙ read_all-comma rows [] v.code _
    ∙ read_all-comma rows (shown_text v.code ∷ []) v.package_name _
    ∙ read_all-comma rows (shown_text v.code ∷ shown_text v.package_name ∷ []) v.price _
    ∙ read_all-csv_cell rows _ v.duration rest h

with_row-select :
    (rows more : List (List Text)) (row : List Text)
    → with_row rows row ++ select is_filled more ≡ rows ++ select is_filled (row ∷ more)
unfolding with_row
with_row-select rows more row = elim (Bool-cases (is_filled row)) [
  | inl filled ↦ rw filled (append_assoc rows (row ∷ []) (select is_filled more))
  | inr blank ↦ rw blank refl
]

last_row-started :
    (rows : List (List Text)) (c : Text) (cs : List Text) (f : Text)
    → last_row (within rows (c ∷ cs) f false) ≡ with_row rows ((c ∷ cs) ++ f ∷ [])
unfolding last_row
last_row-started rows c cs [] = refl
last_row-started rows c cs (d ∷ f) = refl

-- The lines of an export are read as rows behind those that were read.
read_all-lines :
    (rows : List (List Text)) (v : ExportRow) (vs : List ExportRow)
    → last_row (read_all (fresh rows) (join (13 ∷ 10 ∷ []) (map export_line (v ∷ vs))))
      ≡ rows ++ select is_filled (map shown_row (v ∷ vs))
unfolding read_all read_char join
read_all-lines rows v [] =
    ap (λ x. last_row (read_all (fresh rows) x)) (sym (append-nil (export_line v)))
    ∙ ap last_row (read_all-export_line rows v [] refl)
    ∙ last_row-started rows _ _ _
    ∙ sym (append-nil (with_row rows (shown_row v)))
    ∙ with_row-select rows [] (shown_row v)
read_all-lines rows v (w ∷ vs) =
    ap last_row (read_all-export_line rows v _ refl)
    ∙ read_all-lines (with_row rows (shown_row v)) w vs
    ∙ with_row-select rows (map shown_row (w ∷ vs)) (shown_row v)

abbrev pub export_header : List Text
export_header = codes "code" ∷ codes "package" ∷ codes "price_tzs" ∷ codes "duration_minutes" ∷ []

-- The reader takes an export apart into its header and, in order, the cells of each voucher as they
-- were written, apostrophes included, whatever quotes, commas and breaks they hold; a voucher whose
-- cells are all blank is passed over.
pub parse_csv-voucher_export :
    (vs : List ExportRow)
    → parse_csv (voucher_export vs) ≡ export_header ∷ select is_filled (map shown_row vs)
unfolding parse_csv voucher_export
parse_csv-voucher_export [] = refl
parse_csv-voucher_export (v ∷ vs) = read_all-lines (export_header ∷ []) v vs
