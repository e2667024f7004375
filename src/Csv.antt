-- ===== src/Csv.antt =====
-- apps/web/src/lib/csv.ts: the reader of CSV files and the packages of an uploaded one; the export of
-- vouchers of apps/api/src/app.ts.
pub mod Exports
pub mod Packages
use babushop_wifi.Base.{
  ℕ, zero, suc, ◌+◌, Text, codes, Bool, true, false, not, ◌&&◌, ◌||◌, List, [], ◌∷◌, ◌++◌, map,
  Option, none, some, ◌==◌, ltb, if◌then◌else◌, any, all, find, select, length, text_eq, get_or,
  Answer, done, threw,
}
use babushop_wifi.Base.Chars.{trim, to_lower, is_space, is_digit, join, remove_chars}
use babushop_wifi.Crypto.{csv_cell}
use babushop_wifi.Shop.Checkout.Handlers.{is_empty}
use babushop_wifi.Network.Cidr.{digits_value}

-- The variables of the loop; `skipping` is set where the index moves on by two.
pub record Reader : Type 0 where
  pub rows : List (List Text)
  pub row : List Text
  pub field : Text
  pub quoted : Bool
  pub skipping : Bool

abbrev pub push_field : Reader → Reader
push_field s = record s { row = s.row ++ s.field ∷ []; field = [] }

-- `row.some(c=>c.trim()!=='')`
unfoldable pub is_filled : List Text → Bool
unfolding trim
is_filled row = any (λ c. not (is_empty (trim c))) row

abbrev with_row : List (List Text) → List Text → List (List Text)
unfolding is_filled
with_row rows row = if is_filled row then rows ++ row ∷ [] else rows

abbrev pub push_row : Reader → Reader
unfolding is_filled
push_row s = record s { rows = with_row s.rows (s.row ++ s.field ∷ []); row = []; field = [] }

abbrev begins : ℕ → Text → Bool
begins c [] = false
begins c (d ∷ t) = d == c

-- One round of the loop, with the rest of the text in view.
unfoldable pub read_char : Reader → ℕ → Text → Reader
unfolding is_filled
read_char s c rest =
    if s.skipping
    then record s { skipping = false }
    else if s.quoted
    then (if c == b'"'
        then (if begins b'"' rest
            then record s { field = s.field ++ b'"' ∷ []; skipping = true }
            else record s { quoted = false })
        else record s { field = s.field ++ c ∷ [] })
    else if c == b'"'
    then record s { quoted = true }
    else if c == b','
    then push_field s
    else if c == 13
    then s
    else if c == 10
    then push_row s
    else record s { field = s.field ++ c ∷ [] }

unfoldable pub read_all : Reader → Text → Reader
unfolding read_char
read_all s [] = s
read_all s (c ∷ t) = read_all (read_char s c t) t

abbrev is_started : List Text → Bool
is_started [] = false
is_started (c ∷ cs) = true

-- The row that the text ends in, if it has begun.
unfoldable pub last_row : Reader → List (List Text)
unfolding is_filled
last_row s = if not (is_empty s.field) || is_started s.row then (push_row s).rows else s.rows

abbrev without_mark : Text → Text
without_mark [] = []
without_mark (c ∷ t) = if c == 0xfeff then t else c ∷ t

abbrev pub fresh : List (List Text) → Reader
fresh rows = record { rows = rows; row = []; field = []; quoted = false; skipping = false }

unfoldable pub parse_csv : Text → List (List Text)
unfolding read_all last_row
parse_csv text = last_row (read_all (fresh []) (without_mark text))

-- A voucher as it is exported; the numbers are as `String` prints them.
pub record ExportRow : Type 0 where
  pub code : Text
  pub package_name : Text
  pub price : Text
  pub duration : Text

abbrev pub export_line : ExportRow → Text
unfolding csv_cell join
export_line v =
    join (codes ",")
      (csv_cell v.code ∷ csv_cell v.package_name ∷ csv_cell v.price ∷ csv_cell v.duration ∷ [])

unfoldable pub voucher_export : List ExportRow → Text
unfolding csv_cell join
voucher_export rows =
    join (13 ∷ 10 ∷ []) (codes "code,package,price_tzs,duration_minutes" ∷ map export_line rows)
