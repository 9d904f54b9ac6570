-- ===== src/Drivers/Certificates/Numbers.antt =====
-- `strconv.ParseBool(s)` and `strconv.ParseInt(s, 0, 8)`, which read the settings. `none` is an error.
use csm_operator.Prelude.{
  ℕ, ◌+◌, ◌-◌, ◌*◌, Bool, true, false, ◌&&◌, ◌||◌, Option, none, some, [], ◌∷◌, if◌then◌else◌, leb,
  ltb, ◌==◌, any, ℤ, pos, neg,
}
use csm_operator.Prelude.Text.{Text, codes, text_eq}

unfoldable pub parse_bool : Text → Option Bool
parse_bool s =
    if any (text_eq s)
      (codes "1" ∷ codes "t" ∷ codes "T" ∷ codes "TRUE" ∷ codes "true" ∷ codes "True" ∷ [])
    then some true
    else if any (text_eq s)
        (codes "0" ∷ codes "f" ∷ codes "F" ∷ codes "FALSE" ∷ codes "false" ∷ codes "False" ∷ [])
    then some false
    else none

abbrev between : ℕ → ℕ → ℕ → Bool
between low high c = leb low c && leb c high

-- The letter in lower case, of a letter.
abbrev is_letter : ℕ → ℕ → Bool
is_letter l c = c == l || c == l - 32

-- The digit's value, letters included.
unfoldable pub digit_value : ℕ → Option ℕ
digit_value c =
    if between b'0' b'9' c
    then some (c - b'0')
    else if between b'a' b'z' c
    then some (c - b'a' + 10)
    else if between b'A' b'Z' c
    then some (c - b'A' + 10)
    else none

-- The digits, underscores passed over. That the code stops at a value past 8 bits is left out: such a
-- value only grows, and is refused in the end.
unfoldable pub scan_base : ℕ → Text → ℕ → Option ℕ
scan_base base [] n = some n
scan_base base (c ∷ s) n =
    let skipped = scan_base base s n in
    let with_digit = λ (d : ℕ). if leb base d then none else scan_base base s (n * base + d) in
    if c == b'_' then skipped else elim (digit_value c) [ none ↦ none | some d ↦ with_digit d ]

-- The base that the text's start names, and the text behind it.
unfoldable pub split_base : Text → ℕ × Text
split_base (z ∷ p ∷ c ∷ s) =
    if z == b'0'
    then (if is_letter b'b' p
        then (2, c ∷ s)
        else if is_letter b'o' p
        then (8, c ∷ s)
        else if is_letter b'x' p
        then (16, c ∷ s)
        else (8, p ∷ c ∷ s))
    else (10, z ∷ p ∷ c ∷ s)
split_base (z ∷ s) = if z == b'0' then (8, s) else (10, z ∷ s)
split_base [] = (10, [])

-- What the last character was, for the rule on underscores.
pub data Last : Type 0 where
  nothing digit underscore other : Last

-- The loop of `underscoreOK`.
unfoldable pub underscores_from : Bool → Last → Text → Bool
underscores_from is_hex Last.underscore [] = false
underscores_from is_hex last [] = true
underscores_from is_hex last (c ∷ s) =
    let behind_digit = underscores_from is_hex Last.digit s in
    let behind_underscore = underscores_from is_hex Last.underscore s in
    let behind_other = underscores_from is_hex Last.other s in
    if between b'0' b'9' c || (is_hex && (between b'a' b'f' c || between b'A' b'F' c))
    then behind_digit
    else if c == b'_'
    then (elim last [
      | Last.digit ↦ behind_underscore
      | Last.nothing ↦ false
      | Last.underscore ↦ false
      | Last.other ↦ false
    ])
    else elim last [
      | Last.underscore ↦ false
      | Last.nothing ↦ behind_other
      | Last.digit ↦ behind_other
      | Last.other ↦ behind_other
    ]

-- An underscore may stand behind a digit and behind the prefix of a base.
unfoldable pub underscore_ok : Text → Bool
underscore_ok (z ∷ p ∷ s) =
    if z == b'0' && (is_letter b'b' p || is_letter b'o' p || is_letter b'x' p)
    then underscores_from (is_letter b'x' p) Last.digit s
    else underscores_from false Last.nothing (z ∷ p ∷ s)
underscore_ok s = underscores_from false Last.nothing s

unfoldable pub parse_uint : Text → Option ℕ
parse_uint [] = none
parse_uint (c ∷ s) =
    let (base, digits) = split_base (c ∷ s) in
    if any (λ u. u == b'_') (c ∷ s) && (if underscore_ok (c ∷ s) then false else true)
    then none
    else scan_base base digits 0

-- From -128 to 127.
abbrev pub in_int8 : Bool → ℕ → Option ℤ
in_int8 is_negative n =
    if is_negative
    then (if leb n 128 then some (neg n) else none)
    else (if ltb n 128 then some (pos n) else none)

abbrev pub parse_signed : Bool → Text → Option ℤ
parse_signed is_negative s = elim (parse_uint s) [ none ↦ none | some n ↦ in_int8 is_negative n ]

unfoldable pub parse_int8 : Text → Option ℤ
parse_int8 [] = none
parse_int8 (c ∷ s) =
    if c == b'-'
    then parse_signed true s
    else if c == b'+'
    then parse_signed false s
    else parse_signed false (c ∷ s)
