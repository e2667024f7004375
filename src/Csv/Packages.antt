-- ===== src/Csv/Packages.antt =====
-- apps/web/src/lib/csv.ts: `packagesFromCsv`. `shown` prints a number of a row into a message.
use babushop_wifi.Base.{
  ℕ, ◌+◌, Text, codes, Bool, true, false, not, ◌&&◌, ◌||◌, List, [], ◌∷◌, ◌++◌, Option, none, some,
  ◌==◌, ltb, if◌then◌else◌, any, all, find, select, length, text_eq, get_or, Answer, done, threw,
  map,
}
use babushop_wifi.Base.Chars.{trim, to_lower, is_space, is_digit, join, remove_chars}
use babushop_wifi.Shop.Checkout.Handlers.{is_empty}
use babushop_wifi.Network.Cidr.{digits_value}
use babushop_wifi.Csv.{parse_csv}

abbrev pub headers : List Text
headers =
    codes "name"
    ∷ codes "description"
    ∷ codes "price_tzs"
    ∷ codes "duration_minutes"
    ∷ codes "download_mbps"
    ∷ codes "upload_mbps"
    ∷ codes "active"
    ∷ []

pub record ParsedPackage : Type 0 where
  pub name : Text
  pub description : Text
  pub price_tzs : ℕ
  pub duration_minutes : ℕ
  pub download_mbps : Option ℕ
  pub upload_mbps : Option ℕ
  pub active : Bool

abbrev is_one_of : List Text → Text → Bool
is_one_of words t = any (text_eq t) words

-- `replace(/\s+/g,'_')`: a run of white space, `gap` inside one, becomes one underscore.
unfoldable pub underscored : Bool → Text → Text
unfolding is_space
underscored gap [] = []
underscored gap (c ∷ t) =
    if is_space c
    then (if gap then underscored true t else b'_' ∷ underscored true t)
    else c ∷ underscored false t

unfoldable pub header_of : List (List Text) → List Text
unfolding trim to_lower underscored
header_of [] = []
header_of (r ∷ rs) = map (λ h. underscored false (to_lower (trim h))) r

-- `indexOf`
abbrev index_of : Text → List Text → Option ℕ
index_of key [] = none
index_of key (h ∷ hs) =
    let later = index_of key hs in
    if text_eq h key then some 0 else elim later [ none ↦ none | some i ↦ some (i + 1) ]

-- A cell of a row under a column, trimmed; empty where either is missing.
unfoldable pub at_column : List Text → List Text → Text → Text
unfolding trim
at_column header row key = elim (index_of key header) [
  | none ↦ []
  | some i ↦ trim (get_or row i [])
]

module _ (shown : ℕ → Text) where
  abbrev about_row : ℕ → Text → Text
  about_row line message = codes "Row " ++ (shown line ++ (codes ": " ++ message))

  unfoldable pub whole_number : Text → Text → ℕ → Answer ℕ
  unfolding is_space digits_value
  whole_number raw label line =
      let cleaned = remove_chars (λ c. is_space c || c == b',') raw in
      if is_empty cleaned
      then threw (about_row line (label ++ codes " is empty."))
      else if not (all is_digit cleaned)
      then threw (
          about_row line
            (label ++ (codes " must be a whole number, not \"" ++ (raw ++ codes "\"."))))
      else done (digits_value 0 cleaned)

  -- A speed, which may be left blank.
  abbrev speed : Text → Text → ℕ → Answer (Option ℕ)
  unfolding whole_number
  speed raw label line =
      if is_empty raw
      then done none
      else elim (whole_number raw label line) [ threw m ↦ threw m | done n ↦ done (some n) ]

  abbrev is_yes : Text → Bool
  is_yes raw =
      is_empty raw
      || is_one_of (codes "yes" ∷ codes "y" ∷ codes "true" ∷ codes "1" ∷ codes "active" ∷ []) raw

  -- One row; the first cell that is refused stops the file.
  unfoldable pub package_of : List Text → List Text → ℕ → Answer ParsedPackage
  unfolding at_column whole_number to_lower
  package_of header row line =
      let cell : Text → Text = at_column header row in
      elim (whole_number (cell (codes "price_tzs")) (codes "price_tzs") line) [
        | threw m ↦ threw m
        | done price ↦
            elim (whole_number (cell (codes "duration_minutes")) (codes "duration_minutes") line) [
              | threw m ↦ threw m
              | done minutes ↦
                  elim (speed (cell (codes "download_mbps")) (codes "download_mbps") line) [
                    | threw m ↦ threw m
                    | done down ↦
                        elim (speed (cell (codes "upload_mbps")) (codes "upload_mbps") line) [
                          | threw m ↦ threw m
                          | done up ↦ done (record {
                            name = cell (codes "name");
                            description = cell (codes "description");
                            price_tzs = price;
                            duration_minutes = minutes;
                            download_mbps = down;
                            upload_mbps = up;
                            active = is_yes (to_lower (cell (codes "active")));
                          })
                        ]
                  ]
            ]
      ]

  unfoldable pub packages_of : List Text → ℕ → List (List Text) → Answer (List ParsedPackage)
  unfolding package_of
  packages_of header line [] = done []
  packages_of header line (row ∷ rows) =
      let rest = packages_of header (line + 1) rows in
      elim (package_of header row line) [
        | threw m ↦ threw m
        | done p ↦ elim rest [ threw m ↦ threw m | done ps ↦ done (p ∷ ps) ]
      ]

  abbrev expected : Text
  unfolding join
  expected = codes " Expected: " ++ (join (codes ", ") headers ++ codes ".")

  -- What is wrong with the header, if anything.
  unfoldable pub header_problem : List Text → Option Text
  unfolding join
  header_problem header =
      let missing =
        find (λ h. not (is_one_of header h))
          (codes "name" ∷ codes "price_tzs" ∷ codes "duration_minutes" ∷ []) in
      let unknown = select (λ h. not (is_empty h) && not (is_one_of headers h)) header in
      elim missing [
        | some h ↦ some (codes "The header row must include \"" ++ (h ++ (codes "\"." ++ expected)))
        | none ↦
            if length unknown == 0
            then none
            else some (
                codes "Unrecognised column"
                ++ ((if ltb 1 (length unknown) then codes "s" else [])
                    ++ (codes ": " ++ (join (codes ", ") unknown ++ (codes "." ++ expected)))))
      ]

  abbrev behind_first : List (List Text) → List (List Text)
  behind_first [] = []
  behind_first (r ∷ rs) = rs

  unfoldable pub packages_from_csv : Text → Answer (List ParsedPackage)
  unfolding parse_csv header_of header_problem packages_of
  packages_from_csv text =
      let rows = parse_csv text in
      let header = header_of rows in
      if length rows == 0
      then threw (codes "That file has no rows.")
      else elim (header_problem header) [
        | some m ↦ threw m
        | none ↦ packages_of header 1 (behind_first rows)
      ]
