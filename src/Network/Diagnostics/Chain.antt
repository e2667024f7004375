-- ===== src/Network/Diagnostics/Chain.antt =====
-- The firewall reads its rules in order, and the first that matches decides.
use babushop_wifi.Base.{
  ℕ, ◌≡◌, refl, ◌∙◌, arith, Text, codes, Bool, true, false, List, [], ◌∷◌, Option, none, some,
  if◌then◌else◌, Bool-cases, Option-cases, inl, inr, text_eq, eq_of_text_eq,
}
use babushop_wifi.Network.Discovery.{Row, value_of}
use babushop_wifi.Network.Diagnostics.{
  is_blanket_drop, accepts_established, find_index, is_above, next_index, analyze_input_path,
}

-- What becomes of a reply that comes in on an interface: whether it is dropped.
unfoldable pub reply_is_dropped : Text → List Row → Bool
reply_is_dropped iface [] = false
reply_is_dropped iface (rule ∷ rules) =
    let rest = reply_is_dropped iface rules in
    if is_blanket_drop iface rule then true else if accepts_established rule then false else rest

is_above-next : (d a : Option ℕ) → is_above (next_index d) (next_index a) ≡ is_above d a
is_above-next none a = refl
is_above-next (some d) none = refl
is_above-next (some d) (some a) = ground arith

above-first : (d : Option ℕ) → is_above d (some 0) ≡ false
above-first none = refl
above-first (some d) = ground arith

first-above : (a : Option ℕ) → is_above (some 0) (next_index a) ≡ true
first-above none = refl
first-above (some a) = ground arith

-- No rule both drops and accepts.
drop-accept :
    (iface : Text) (rule : Row)
    → is_blanket_drop iface rule ≡ true
    → accepts_established rule ≡ false
unfolding is_blanket_drop accepts_established
drop-accept iface rule drops = elim (Option-cases (value_of rule (codes "action"))) [
  | inl missing ↦ ground arith
  | inr (action, given) ↦ elim (Bool-cases (text_eq action (codes "drop"))) [
    | inl is_drop ↦ ground (arith, eq_of_text_eq action (codes "drop") is_drop)
    | inr other ↦ absurd (ground arith)
  ]
]

first_decides :
    (iface : Text) (rules : List Row)
    → is_above (find_index (is_blanket_drop iface) rules) (find_index accepts_established rules)
      ≡ reply_is_dropped iface rules
unfolding find_index reply_is_dropped
first_decides iface [] = refl
first_decides iface (rule ∷ rules) = elim (Bool-cases (is_blanket_drop iface rule)) [
  | inl drops ↦
      rw (drops, drop-accept iface rule drops) (first-above (find_index accepts_established rules))
  | inr passes ↦ elim (Bool-cases (accepts_established rule)) [
    | inl accepts ↦
        rw (passes, accepts) (above-first (next_index (find_index (is_blanket_drop iface) rules)))
    | inr silent ↦
        rw (passes, silent)
          (is_above-next (find_index (is_blanket_drop iface) rules)
              (find_index accepts_established rules)
            ∙ first_decides iface rules)
  ]
]

-- The analysis of the two rules' places says that replies are blocked exactly when a reply that is
-- taken through the rules in order is dropped: by a rule that drops all of the interface's traffic,
-- before one that accepts established connections.
pub analyze_input_path_lem :
    (rules : List Row) (iface : Text)
    → (analyze_input_path rules iface).blocks_replies ≡ reply_is_dropped iface rules
unfolding analyze_input_path
analyze_input_path_lem rules iface = first_decides iface rules
