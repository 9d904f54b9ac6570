-- ===== src/Version.antt =====
-- Config versions "vA.B.C": `versionParser` and `MinVersionCheck` of pkg/operatorutils/utils.go, and
-- `strconv.Atoi`, whose error the code drops.
pub mod Parser
pub mod Order
use csm_operator.Prelude.{
  ◌-◌, ◌^◌, ℕ, ◌&&◌, Bool, true, false, none, some, List, [], ◌∷◌, if◌then◌else◌, leb, ◌==◌, ℤ, pos,
  neg, leb_ℤ, eq_ℤ, ltb_ℤ, Result, ok, err, Err, ◌>>=◌,
}
use csm_operator.Prelude.Text.{Text, codes, split, trim_left}
use csm_operator.Prelude.Decimal.{scan_digits}

abbrev pub int64_size : ℕ
int64_size = 2 ^ 63

-- The value that `strconv.ParseInt` returns beside its error, for a text behind its sign.
unfoldable pub magnitude : Bool → Text → ℤ
magnitude is_negative [] = pos 0
magnitude is_negative (c ∷ s) = elim (scan_digits (c ∷ s) 0) [
  | none ↦ pos 0
  | some n ↦
      if is_negative
      then neg (if leb n int64_size then n else int64_size)
      else pos (if leb int64_size n then int64_size - 1 else n)
]

-- v, _ := strconv.Atoi(s)
unfoldable pub atoi : Text → ℤ
atoi [] = pos 0
atoi (c ∷ s) =
    if c == b'-'
    then magnitude true s
    else if c == b'+'
    then magnitude false s
    else magnitude false (c ∷ s)

-- The test `len(versionPieces) != 3`, and the numbers of the first two pieces.
unfoldable pub two_numbers : List Text → Result (ℤ × ℤ)
two_numbers (a ∷ b ∷ c ∷ []) = ok (atoi a, atoi b)
two_numbers _ = err (Err.message (codes "version not in correct version format"))

unfoldable pub version_parser : Text → Result (ℤ × ℤ)
unfolding two_numbers
version_parser version = two_numbers (split (trim_left version b'v') b'.')

-- The comparison of the parsed numbers; the first pair is the minimum.
unfoldable pub meets : ℤ × ℤ → ℤ × ℤ → Bool
unfolding ltb_ℤ leb_ℤ eq_ℤ
meets (min_major, min_minor) (major, minor) =
    if ltb_ℤ min_major major
    then true
    else if eq_ℤ major min_major && leb_ℤ min_minor minor
    then true
    else false

unfoldable pub min_version_check : Text → Text → Result Bool
min_version_check min_version version = do
  least ← version_parser min_version
  v ← version_parser version
  ok (meets least v)
