-- ===== src/Drivers/Addresses.antt =====
-- `ValidateIPAddress` and `IsIpv4Regex` of pkg/drivers/powerflex.go. The regular expression is read as
-- what it says: four numbers from 0 to 255 without leading zeros, between three dots.
pub mod Laws
use csm_operator.Prelude.{
  ℕ, Bool, true, false, ◌&&◌, ◌||◌, List, [], ◌∷◌, ◌++◌, map, if◌then◌else◌, leb, ◌==◌, all,
}
use csm_operator.Prelude.Text.{Text, split, trim_space}

abbrev pub is_digit : ℕ → Bool
is_digit c = leb b'0' c && leb c b'9'

-- [1-9]
abbrev pub is_first_digit : ℕ → Bool
is_first_digit c = leb b'1' c && leb c b'9'

-- [0-9]|[1-9][0-9]|1[0-9]{2}|2[0-4][0-9]|25[0-5]
unfoldable pub is_octet : Text → Bool
is_octet (a ∷ []) = is_digit a
is_octet (a ∷ b ∷ []) = is_first_digit a && is_digit b
is_octet (a ∷ b ∷ c ∷ []) =
    (a == b'1' && (is_digit b && is_digit c))
    || ((a == b'2' && (leb b'0' b && leb b b'4' && is_digit c))
        || (a == b'2' && (b == b'5' && (leb b'0' c && leb c b'5'))))
is_octet _ = false

unfoldable pub are_octets : List Text → Bool
are_octets (a ∷ b ∷ c ∷ d ∷ []) = is_octet a && is_octet b && is_octet c && is_octet d
are_octets _ = false

unfoldable pub is_ipv4 : Text → Bool
is_ipv4 s = are_octets (split s b'.')

-- strings.Join(parts, ",")
unfoldable pub join_commas : List Text → Text
join_commas [] = []
join_commas (s ∷ []) = s
join_commas (s ∷ t ∷ ts) = s ++ b',' ∷ join_commas (t ∷ ts)

-- The loop over the pieces: those behind the place are not trimmed yet, and the text that is kept is
-- that of the last piece that has passed.
unfoldable pub validate_pieces : List Text → List Text → Text → Text × Bool
validate_pieces before [] kept = (kept, true)
validate_pieces before (s ∷ rest) kept =
    let trimmed = before ++ trim_space s ∷ [] in
    let passed = validate_pieces trimmed rest (join_commas (trimmed ++ rest)) in
    if is_ipv4 (trim_space s) then passed else (kept, false)

-- The pieces are never none: `strings.Split` gives one at least.
unfoldable pub validate_ip_address : Text → Text × Bool
validate_ip_address s = validate_pieces [] (split s b',') []
