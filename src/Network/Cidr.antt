-- ===== src/Network/Cidr.antt =====
-- packages/network/src/cidr.ts: IPv4 addresses as unsigned 32-bit numbers, and their blocks.
-- `Number(prefix)` is modelled on decimal digits and on the empty text, which it reads as 0; its other
-- spellings (signs, fractions, exponents, other bases) are refused here.
pub mod Blocks
pub mod Free
use babushop_wifi.Base.{
  ℕ, zero, suc, ◌+◌, ◌*◌, ◌-◌, ◌/◌, ◌%◌, ◌^◌, Text, codes, Bool, true, false, not, ◌&&◌, ◌||◌, List,
  [], ◌∷◌, ◌++◌, Option, none, some, ◌==◌, ltb, leb, if◌then◌else◌, any, all, find, length, Answer,
  done, threw, text_eq,
}
use babushop_wifi.Base.Chars.{is_digit, trim, to_upper, split, join, remove_chars}
use babushop_wifi.Network.Bindings.{is_hex, pairs}

pub record Cidr : Type 0 where
  pub address : ℕ
  pub bits : ℕ

abbrev pub two32 : ℕ
two32 = 2 ^ 32

-- The value of a text of digits, after `acc`.
unfoldable pub digits_value : ℕ → Text → ℕ
digits_value acc [] = acc
digits_value acc (c ∷ t) = digits_value (acc * 10 + (c - b'0')) t

-- `\d{1,3}` and at most 255.
unfoldable pub octet : Text → Option ℕ
unfolding digits_value
octet t =
    if leb 1 (length t) && leb (length t) 3 && all is_digit t && leb (digits_value 0 t) 255
    then some (digits_value 0 t)
    else none

abbrev not_address : Text → Text
not_address value = codes "Not an IPv4 address: " ++ value

abbrev word_of : ℕ → ℕ → ℕ → ℕ → ℕ
word_of a b c d = a * 2 ^ 24 + (b * 2 ^ 16 + (c * 2 ^ 8 + d))

unfoldable pub parse_octets : List Text → Option ℕ
unfolding octet
parse_octets (a ∷ b ∷ c ∷ d ∷ []) = elim (octet a) [
  | none ↦ none
  | some i ↦ elim (octet b) [
    | none ↦ none
    | some j ↦ elim (octet c) [
      | none ↦ none
      | some k ↦ elim (octet d) [ none ↦ none | some l ↦ some (word_of i j k l) ]
    ]
  ]
]
parse_octets _ = none

unfoldable pub parse_address : Text → Answer ℕ
unfolding parse_octets split trim
parse_address value = elim (parse_octets (split b'.' (trim value))) [
  | none ↦ threw (not_address value)
  | some n ↦ done n
]

-- A number below 1000 in digits.
unfoldable pub decimal : ℕ → Text
decimal n =
    if ltb n 10
    then (b'0' + n) ∷ []
    else if ltb n 100
    then (b'0' + n / 10) ∷ (b'0' + n % 10) ∷ []
    else (b'0' + n / 100) ∷ (b'0' + n / 10 % 10) ∷ (b'0' + n % 10) ∷ []

unfoldable pub format_address : ℕ → Text
unfolding decimal join
format_address value = join (codes ".") (
    decimal (value / 2 ^ 24 % 256)
    ∷ decimal (value / 2 ^ 16 % 256)
    ∷ decimal (value / 2 ^ 8 % 256)
    ∷ decimal (value % 256)
    ∷ [])

-- `[address, prefix = '32']`
abbrev halves : List Text → Text × Text
halves [] = ([], codes "32")
halves (a ∷ []) = (a, codes "32")
halves (a ∷ p ∷ more) = (a, p)

unfoldable pub prefix_of : Text → Option ℕ
unfolding digits_value trim
prefix_of t =
    if all is_digit (trim t) && leb (digits_value 0 (trim t)) 32
    then some (digits_value 0 (trim t))
    else none

unfoldable pub parse_cidr : Text → Answer Cidr
unfolding prefix_of parse_address split trim
parse_cidr value =
    let (address, prefix) = halves (split b'/' (trim value)) in
    elim (prefix_of prefix) [
      | none ↦ threw (codes "Not an IPv4 CIDR: " ++ value)
      | some bits ↦ elim (parse_address address) [
        | threw m ↦ threw m
        | done n ↦ done (record { address = n; bits = bits })
      ]
    ]

unfoldable pub format_cidr : Cidr → Text
unfolding format_address decimal
format_cidr c = format_address c.address ++ (b'/' ∷ decimal c.bits)

-- The first address of a block, its host bits cleared; each shift stays in 32 bits.
unfoldable pub network_of : Cidr → ℕ
network_of c = if c.bits == 0 then 0 else c.address / 2 ^ (32 - c.bits) * 2 ^ (32 - c.bits) % two32

unfoldable pub broadcast_of : Cidr → ℕ
unfolding network_of
broadcast_of c = if c.bits == 32 then c.address else (network_of c + 2 ^ (32 - c.bits) - 1) % two32

unfoldable pub overlaps : Cidr → Cidr → Bool
unfolding network_of broadcast_of
overlaps a b = leb (network_of a) (broadcast_of b) && leb (network_of b) (broadcast_of a)

unfoldable pub in_block : Cidr → ℕ → Bool
unfolding network_of broadcast_of
in_block c n = leb (network_of c) n && leb n (broadcast_of c)

unfoldable pub contains : Cidr → Text → Answer Bool
unfolding in_block parse_address
contains c address = elim (parse_address address) [
  | threw m ↦ threw m
  | done n ↦ done (in_block c n)
]

-- A block or an address that does not parse is not a match.
abbrev holds : Text → Text → Bool
unfolding contains parse_cidr
holds address cidr = elim (parse_cidr cidr) [
  | threw m ↦ false
  | done c ↦ elim (contains c address) [ threw m ↦ false | done b ↦ b ]
]

unfoldable pub contains_any : List Text → Text → Bool
unfolding contains parse_cidr
contains_any cidrs address = any (holds address) cidrs

unfoldable pub parse_all : List Text → Answer (List Cidr)
unfolding parse_cidr
parse_all [] = done []
parse_all (t ∷ ts) =
    let rest = parse_all ts in
    elim (parse_cidr t) [
      | threw m ↦ threw m
      | done c ↦ elim rest [ threw m ↦ threw m | done cs ↦ done (c ∷ cs) ]
    ]

-- `candidates.find(…)`: one that does not parse ends the search with its error.
unfoldable pub first_free : List Cidr → List Text → Answer Text
unfolding parse_cidr overlaps
first_free used [] =
    threw (codes "No management subnet is free of the existing networks. Widen the candidate pool.")
first_free used (t ∷ ts) =
    let rest = first_free used ts in
    elim (parse_cidr t) [
      | threw m ↦ threw m
      | done block ↦ if any (λ c. overlaps block c) used then rest else done t
    ]

unfoldable pub select_management_cidr : List Text → List Text → Answer Text
unfolding parse_all first_free
select_management_cidr taken candidates = elim (parse_all taken) [
  | threw m ↦ threw m
  | done used ↦ first_free used candidates
]

abbrev pub default_candidates : List Text
default_candidates =
    codes "10.77.1.0/24"
    ∷ codes "10.77.2.0/24"
    ∷ codes "10.88.1.0/24"
    ∷ codes "172.30.1.0/24"
    ∷ codes "172.31.1.0/24"
    ∷ []

unfoldable pub normalize_mac : Text → Answer Text
unfolding pairs join trim to_upper
normalize_mac value =
    let hex = remove_chars (λ c. not (is_hex c)) (to_upper (trim value)) in
    if length hex == 12
    then done (join (codes ":") (pairs hex))
    else threw (codes "Not a MAC address: " ++ value)

unfoldable pub same_mac : Text → Text → Bool
unfolding normalize_mac
same_mac a b = elim (normalize_mac a) [
  | threw m ↦ false
  | done x ↦ elim (normalize_mac b) [ threw m ↦ false | done y ↦ text_eq x y ]
]
