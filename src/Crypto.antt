-- ===== src/Crypto.antt =====
-- packages/database/src/crypto.ts: voucher codes as the customer types them, as they are stored and
-- as they are printed. The keyed hash and the cipher of node:crypto are the record `Cipher`.
pub mod Codes
use babushop_wifi.Base.{
  ℕ, zero, suc, ◌%◌, Text, codes, String, Bool, true, false, ◌&&◌, ◌||◌, not, List, [], ◌∷◌, ◌++◌,
  Option, none, some, ◌==◌, if◌then◌else◌, length, all, get_or, Result, require_value, ok, ◌>>=◌,
  ◌>>◌, ◌≡◌, is_some, text_eq,
}
use babushop_wifi.Base.Chars.{is_space, to_upper, remove_chars, includes, join}

-- node:crypto. `digest` and `context_digest` are the HMACs under VOUCHER_LOOKUP_KEY and
-- PORTAL_CONTEXT_SECRET, `encrypt` is AES-256-GCM under the nonce drawn for the call.
pub record Cipher : Type 0 where
  pub digest : Text → Text
  pub context_digest : Text → Text
  pub encrypt : Text → Text → Text
  pub decrypt : Text → Text
  pub decrypt-encrypt : (nonce value : Text) → decrypt (encrypt nonce value) ≡ value

abbrev pub alphabet : Text
alphabet = codes "ABCDEFGHJKLMNPQRSTUVWXYZ23456789"

-- `alphabet.includes(c)`
unfoldable pub is_symbol : ℕ → Bool
is_symbol c = includes c alphabet

-- The characters of `[\s-]`.
abbrev pub is_separator : ℕ → Bool
is_separator c = is_space c || c == b'-'

unfoldable pub normalize : Text → Result Text
unfolding to_upper is_space is_symbol
normalize code = do
  let n = remove_chars is_separator (to_upper code)
  require_value (length n == 16 && all is_symbol n) 400
      "Voucher cannot be used. Check the code or contact the attendant."
  ok n

-- `alphabet[b & 31]`; a byte's low five bits are always an index of the alphabet.
unfoldable pub symbol : ℕ → ℕ
symbol b = get_or alphabet (b % 32) 0

-- Over the sixteen random bytes.
unfoldable pub generate : List ℕ → Text
unfolding symbol
generate [] = []
generate (b ∷ bytes) = symbol b ∷ generate bytes

-- What `.` matches.
abbrev pub is_dot : ℕ → Bool
is_dot c = not (c == 10 || c == 13 || c == 0x2028 || c == 0x2029)

-- `code.match(/.{4}/g)`
unfoldable pub groups_of_four : Text → List Text
groups_of_four (a ∷ b ∷ c ∷ d ∷ rest) =
    let hit = (a ∷ b ∷ c ∷ d ∷ []) ∷ groups_of_four rest in
    let miss = groups_of_four (b ∷ c ∷ d ∷ rest) in
    if is_dot a && is_dot b && is_dot c && is_dot d then hit else miss
groups_of_four _ = []

unfoldable pub present : Text → Text
unfolding groups_of_four join
present code = join (codes "-") (groups_of_four code)

-- `/^[=+@\-\t\r]/`
abbrev pub starts_formula : Text → Bool
starts_formula [] = false
starts_formula (c ∷ s) = c == b'=' || c == b'+' || c == b'@' || c == b'-' || c == 9 || c == 13

-- `replaceAll('"','""')`
abbrev pub double_quotes : Text → Text
double_quotes [] = []
double_quotes (c ∷ s) = if c == 34 then 34 ∷ 34 ∷ double_quotes s else c ∷ double_quotes s

-- One cell of an export, quoted, with an apostrophe before what a spreadsheet would run.
unfoldable pub csv_cell : Text → Text
csv_cell s = 34 ∷ ((if starts_formula s then 39 ∷ [] else []) ++ (double_quotes s ++ 34 ∷ []))
