-- ===== src/Version/Parser.antt =====
-- The parser on the versions that the operator's files hold: decimal numbers with dots.
use csm_operator.Prelude.{
  ◌+◌, ◌<◌, ℕ, Option, List, [], ◌∷◌, ◌++◌, append_assoc, append-nil, ◌≡◌, ◌≢◌, refl, arith,
  if◌then◌else◌, ◌==◌, pos, ok, is_ok, All, length,
}
use csm_operator.Prelude.Text.{Text, split, split_from, trim_left}
use csm_operator.Prelude.Decimal.{
  IsDigit, format_nat, format_nat-IsDigit, format_nat-ne-nil, scan_digits, scan_digits-format_nat,
}
use csm_operator.Version.{int64_size, magnitude, atoi, two_numbers, version_parser}

-- "vA.B.C"
abbrev pub version : ℕ → ℕ → ℕ → Text
version a b c = b'v' ∷ (format_nat a ++ b'.' ∷ (format_nat b ++ b'.' ∷ format_nat c))

atoi_of_digits :
    (s : Text) (n : ℕ)
    → All IsDigit s
    → s ≢ []
    → scan_digits s 0 ≡ Option.some n
    → n < int64_size
    → atoi s ≡ pos n
unfolding atoi magnitude
atoi_of_digits [] n d h e b = absurd (h refl)
atoi_of_digits (c ∷ s) n d h e b = ground arith

-- `Atoi` undoes %d on every number that an `int` holds.
pub atoi-format_nat : (n : ℕ) → n < int64_size → atoi (format_nat n) ≡ pos n
atoi-format_nat n b =
    atoi_of_digits (format_nat n) n (format_nat-IsDigit n) (format_nat-ne-nil n)
      (scan_digits-format_nat n (omega arith)) b

-- A text of digits is kept whole in front of a dot.
split_from-digits :
    (s rest cur : Text)
    → All IsDigit s
    → split_from b'.' (s ++ b'.' ∷ rest) cur ≡ (cur ++ s) ∷ split_from b'.' rest []
unfolding split_from
split_from-digits [] rest cur h = rw append-nil
split_from-digits (c ∷ s) rest cur h =
    ground (arith, split_from-digits s rest (cur ++ c ∷ []), append_assoc cur (c ∷ []) s)

split_from-last : (s cur : Text) → All IsDigit s → split_from b'.' s cur ≡ (cur ++ s) ∷ []
unfolding split_from
split_from-last [] cur h = rw append-nil
split_from-last (c ∷ s) cur h =
    ground (arith, split_from-last s (cur ++ c ∷ []), append_assoc cur (c ∷ []) s)

trim_left-digits : (s rest : Text) → All IsDigit s → s ≢ [] → trim_left (s ++ rest) b'v' ≡ s ++ rest
unfolding trim_left
trim_left-digits [] rest d h = absurd (h refl)
trim_left-digits (c ∷ s) rest d h = ground arith

trim_left_v : (s : Text) → trim_left (b'v' ∷ s) b'v' ≡ trim_left s b'v'
unfolding trim_left
trim_left_v s = refl

-- Of a printed version whose numbers are below 2 ^ 63 the parser reads back the major and the
-- minor number, and drops the patch number.
pub version_parser-version :
    (a b c : ℕ)
    → a < int64_size
    → b < int64_size
    → c < int64_size
    → version_parser (version a b c) ≡ ok (pos a, pos b)
unfolding version_parser split
version_parser-version a b c ha hb hc = rw (
  trim_left_v,
  trim_left-digits (format_nat a) _ (format_nat-IsDigit a) (format_nat-ne-nil a),
  split_from-digits (format_nat a) _ [] (format_nat-IsDigit a),
  split_from-digits (format_nat b) _ [] (format_nat-IsDigit b),
  split_from-last (format_nat c) [] (format_nat-IsDigit c),
  atoi-format_nat a ha,
  atoi-format_nat b hb,
)

-- How often the separator stands in a text.
abbrev pub count : ℕ → Text → ℕ
count sep [] = 0
count sep (c ∷ s) = if c == sep then count sep s + 1 else count sep s

length-split_from : (sep : ℕ) (s cur : Text) → length (split_from sep s cur) ≡ count sep s + 1
unfolding split_from
length-split_from sep [] cur = refl
length-split_from sep (c ∷ s) cur =
    ground (arith, length-split_from sep s [], length-split_from sep s (cur ++ c ∷ []))

is_ok-two_numbers : (ps : List Text) → is_ok (two_numbers ps) ≡ (length ps == 3)
unfolding two_numbers
is_ok-two_numbers [] = refl
is_ok-two_numbers (a ∷ []) = refl
is_ok-two_numbers (a ∷ b ∷ []) = refl
is_ok-two_numbers (a ∷ b ∷ c ∷ []) = refl
is_ok-two_numbers (a ∷ b ∷ c ∷ d ∷ ps) = ground arith

-- A version is accepted exactly when it has two dots, whatever stands between them.
pub is_ok-version_parser :
    (v : Text) → is_ok (version_parser v) ≡ (count b'.' (trim_left v b'v') == 2)
unfolding version_parser split
is_ok-version_parser v =
    let s = trim_left v b'v' in
    ground (arith, is_ok-two_numbers (split_from b'.' s []), length-split_from b'.' s [])
