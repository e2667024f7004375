-- ===== src/Network/Bindings.antt =====
-- packages/network/src/bindings.ts: the hotspot's bypass bindings of VIP devices, and the plan that
-- brings them in line with the portal's list.
pub mod Comments
pub mod Converges
pub mod Carried
use babushop_wifi.Base.{
  ℕ, ◌%◌, ◌-◌, Text, codes, Bool, true, false, not, ◌&&◌, ◌||◌, List, [], ◌∷◌, ◌++◌, Option, none,
  some, ◌==◌, leb, if◌then◌else◌, any, all, find, select, take, drop, length, get_or, text_eq,
  is_some, Answer, done, threw,
}
use babushop_wifi.Base.Chars.{trim, to_upper, remove_chars, is_digit, is_space, join}
use babushop_wifi.Shop.Checkout.Handlers.{starts_with, is_empty}

abbrev pub is_hex : ℕ → Bool
is_hex c = is_digit c || (leb b'A' c && leb c b'F')

-- `hex.match(/.{2}/g)`
unfoldable pub pairs : Text → List Text
pairs [] = []
pairs (a ∷ []) = []
pairs (a ∷ b ∷ t) = (a ∷ b ∷ []) ∷ pairs t

abbrev hex_value : ℕ → ℕ
hex_value c = if is_digit c then c - b'0' else c - 55

-- `parseInt(hex.slice(0,2),16)&1`
abbrev is_group : Text → Bool
is_group hex = hex_value (get_or hex 1 b'0') % 2 == 1

unfoldable pub normalize_mac : Text → Answer Text
unfolding pairs join trim to_upper
normalize_mac value =
    let hex = remove_chars (λ c. not (is_hex c)) (to_upper (trim value)) in
    let mac = join (codes ":") (pairs hex) in
    if not (length hex == 12)
    then threw (codes "A Wi-Fi address has 12 letters and digits, like 6E:7E:F2:CA:66:74.")
    else if text_eq mac (codes "00:00:00:00:00:00") || text_eq mac (codes "FF:FF:FF:FF:FF:FF")
    then threw (codes "That is not a device address.")
    else if is_group hex
    then threw (codes "That is a group address, not a single device.")
    else done mac

abbrev pub vip_tag : Text
vip_tag = codes "JIACHIE-VIP:"

abbrev is_letter : ℕ → Bool
is_letter c = (leb b'a' c && leb c b'z') || (leb b'A' c && leb c b'Z')

-- `[A-Za-z0-9 ._-]`
abbrev is_kept : ℕ → Bool
is_kept c = is_letter c || is_digit c || c == b' ' || c == b'.' || c == b'_' || c == b'-'

-- `.replace(/\s+/g,' ')`; of the characters that are kept, only the blank is a space.
abbrev one_space : Text → Text
one_space [] = []
one_space (c ∷ []) = c ∷ []
one_space (c ∷ d ∷ t) =
    let rest = one_space (d ∷ t) in if c == b' ' && d == b' ' then rest else c ∷ rest

unfoldable pub clean_name : Text → Text
unfolding trim
clean_name name = take 40 (trim (one_space (remove_chars (λ c. not (is_kept c)) name)))

unfoldable pub vip_comment : Text → Text → Text
unfolding clean_name
vip_comment id name =
    vip_tag ++ (id ++ (if is_empty (clean_name name) then [] else b' ' ∷ clean_name name))

-- `[0-9a-f-]`
abbrev pub is_id_char : ℕ → Bool
is_id_char c = is_digit c || (leb b'a' c && leb c b'f') || c == b'-'

-- `\w`
abbrev pub is_word : ℕ → Bool
is_word c = is_letter c || is_digit c || c == b'_'

abbrev starts_word : Text → Bool
starts_word [] = false
starts_word (c ∷ t) = is_word c

abbrev differ : Bool → Bool → Bool
differ true b = not b
differ false b = b

-- `/^JIACHIE-VIP:([0-9a-f-]{36})\b/`
unfoldable pub vip_id_of : Text → Option Text
unfolding starts_with
vip_id_of comment =
    let rest = drop 12 comment in
    let id = take 36 rest in
    if starts_with comment vip_tag
      && length id == 36
      && all is_id_char id
      && differ (is_word (get_or id 35 b'-')) (starts_word (drop 36 rest))
    then some id
    else none

-- A field that the router does not give is empty here.
pub record Binding : Type 0 where
  pub id : Text
  pub mac_address : Text
  pub type : Text
  pub comment : Text
  pub disabled : Text

pub record Wanted : Type 0 where
  pub id : Text
  pub mac : Text
  pub name : Text

-- `add`, `remove` and `kept`; `kept` is the map from a portal id to its binding.
pub record Reconciled : Type 0 where
  pub add : List Wanted
  pub remove : List Binding
  pub kept : List (Text × Binding)

abbrev pub has_key : Text → List (Text × Binding) → Bool
has_key id kept = any (λ k. text_eq k.0 id) kept

abbrev fits : Option Wanted → Binding → Bool
unfolding to_upper
fits none b = false
fits (some w) b =
    text_eq (to_upper b.mac_address) w.mac
    && text_eq b.type (codes "bypassed")
    && not (text_eq b.disabled (codes "true"))

unfoldable pub is_healthy : List Wanted → Text → Binding → List (Text × Binding) → Bool
unfolding fits
is_healthy wanted id b kept = fits (find (λ w. text_eq w.id id) wanted) b && not (has_key id kept)

-- The loop over the tagged bindings.
unfoldable pub sort_bindings :
    List Wanted
    → List Binding
    → List (Text × Binding)
    → List Binding
    → List (Text × Binding) × List Binding
unfolding vip_id_of is_healthy
sort_bindings wanted [] kept remove = (kept, remove)
sort_bindings wanted (b ∷ bs) kept remove = elim (vip_id_of b.comment) [
  | none ↦ sort_bindings wanted bs kept remove
  | some id ↦
      let healthy = is_healthy wanted id b kept in
      sort_bindings wanted bs (if healthy then kept ++ (id, b) ∷ [] else kept)
        (if healthy then remove else remove ++ b ∷ [])
]

unfoldable pub reconcile : List Wanted → List Binding → Reconciled
unfolding sort_bindings
reconcile wanted bindings =
    let (kept, remove) = sort_bindings wanted bindings [] [] in
    record { add = select (λ w. not (has_key w.id kept)) wanted; remove = remove; kept = kept }
