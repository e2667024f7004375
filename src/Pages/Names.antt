-- ===== src/Pages/Names.antt =====
-- packages/network/src/files.ts: `hotspotPath` and `checkContents`.
use babushop_wifi.Base.{
  Answer, done, threw, ℕ, ◌+◌, Text, codes, Bool, false, not, ◌&&◌, ◌||◌, List, [], ◌∷◌, ◌++◌, ◌==◌,
  ltb, leb, if◌then◌else◌, any, all, length, text_eq,
}
use babushop_wifi.Base.Chars.{trim, to_lower, is_digit, includes, split, join}
use babushop_wifi.Shop.Checkout.Handlers.{is_empty}
use babushop_wifi.Payments.Azam.Words.{has_word}

abbrev pub text_types : List Text
text_types =
    codes "html"
    ∷ codes "htm"
    ∷ codes "css"
    ∷ codes "js"
    ∷ codes "txt"
    ∷ codes "svg"
    ∷ codes "json"
    ∷ codes "xml"
    ∷ []

abbrev pub max_bytes : ℕ
max_bytes = 60000

-- `[A-Za-z0-9_-]`
abbrev pub is_name_char : ℕ → Bool
is_name_char c =
    (leb b'a' c && leb c b'z') || (leb b'A' c && leb c b'Z') || is_digit c || c == b'_' || c == b'-'

abbrev is_plain : Text → Bool
is_plain t = not (is_empty t) && all is_name_char t

abbrev starts_plain : Text → Bool
starts_plain [] = false
starts_plain (c ∷ t) = is_name_char c

-- `PART`, and no `..` in it.
unfoldable pub is_part : Text → Bool
unfolding has_word
is_part p =
    starts_plain p
    && leb (length p) 64
    && all (λ c. is_name_char c || c == b'.') p
    && not (has_word p (codes ".."))

abbrev drop_slashes : Text → Text
drop_slashes [] = []
drop_slashes (c ∷ t) = if c == b'/' then drop_slashes t else c ∷ t

abbrev last_of : List Text → Text
last_of [] = []
last_of (p ∷ []) = p
last_of (p ∷ q ∷ ps) = last_of (q ∷ ps)

unfoldable pub hotspot_path : Text → Text → Answer Text
unfolding is_part split join trim to_lower
hotspot_path directory relative =
    let parts = split b'/' (drop_slashes (trim relative)) in
    let file = last_of parts in
    let ext = to_lower (last_of (split b'.' file)) in
    if not (all is_plain (split b'/' directory))
    then threw (codes "The hotspot page folder on the router has an unexpected name")
    else if ltb 2 (length parts) || not (all is_part parts)
    then threw (
        codes
          "Use a plain file name, optionally in one subfolder, such as login.html or css/style.css")
    else if not (includes b'.' file) || not (any (λ t. text_eq t ext) text_types)
    then threw (codes "Only .html, .htm, .css, .js, .txt, .svg, .json, .xml files can be uploaded")
    else done (directory ++ (b'/' ∷ join (codes "/") parts))

abbrev is_high : ℕ → Bool
is_high c = leb 0xd800 c && leb c 0xdbff

abbrev is_low : ℕ → Bool
is_low c = leb 0xdc00 c && leb c 0xdfff

abbrev unit_bytes : ℕ → ℕ
unit_bytes c = if ltb c 0x80 then 1 else if ltb c 0x800 then 2 else 3

-- `Buffer.byteLength(contents,'utf8')`: a pair of surrogates takes four bytes, one alone three.
unfoldable pub utf8_length : Text → ℕ
utf8_length [] = 0
utf8_length (c ∷ []) = unit_bytes c
utf8_length (c ∷ d ∷ t) =
    let pair = 4 + utf8_length t in
    let one = unit_bytes c + utf8_length (d ∷ t) in if is_high c && is_low d then pair else one

-- The message that gives the size in KB is shortened.
unfoldable pub check_contents : Text → Answer ℕ
unfolding utf8_length
check_contents contents =
    let size = utf8_length contents in
    if size == 0
    then threw (codes "The file is empty")
    else if ltb max_bytes size
    then threw (codes "The file is too large; the router accepts at most 60 KB")
    else if includes 0 contents || includes 0xfffd contents
    then threw (codes "That is not a UTF-8 text file")
    else done size
