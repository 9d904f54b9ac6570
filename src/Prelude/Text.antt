-- ===== src/Prelude/Text.antt =====
-- Go strings as lists of code points, and the functions of package `strings` that the code calls.
use Prim.Native.Char.{code}
use csm_operator.Prelude.Tests.{leb, ltb, ◌==◌, if◌then◌else◌}
use csm_operator.Prelude.Lists.{length}
use Prim.Native.Nat.{ℕ, zero, suc, ◌-◌, ◌+◌}
use Prim.Native.String.{String}
use mathlib.Core.Path.{◌≡◌, refl}
use mathlib.Core.Logic.{◌↔◌}
use mathlib.Core.Bool.{Bool, true, false, ◌&&◌, ◌||◌}
use mathlib.Core.Option.{Option, none, some}
use mathlib.Core.List.{List, [], ◌∷◌, ◌++◌, reverse}
use native.Mathlib.Omega.{arith}

abbrev pub Text : Type 0
Text = List ℕ

-- The code points of a literal.
abbrev pub codes : String → Text
codes String.[] = []
codes (String.◌∷◌ c s) = code c ∷ codes s

-- s == t
unfoldable pub text_eq : Text → Text → Bool
text_eq [] [] = true
text_eq [] (d ∷ t) = false
text_eq (c ∷ s) [] = false
text_eq (c ∷ s) (d ∷ t) = c == d && text_eq s t

-- s == ""
unfoldable pub is_empty : Text → Bool
is_empty [] = true
is_empty (c ∷ s) = false

-- len(s), the number of bytes in UTF-8
unfoldable pub byte_length : Text → ℕ
byte_length [] = 0
byte_length (c ∷ s) =
    (if ltb c 0x80 then 1 else if ltb c 0x800 then 2 else if ltb c 0x10000 then 3 else 4)
    + byte_length s

-- strings.HasPrefix(s, prefix)
unfoldable pub has_prefix : Text → Text → Bool
has_prefix s [] = true
has_prefix [] (c ∷ p) = false
has_prefix (d ∷ s) (c ∷ p) = c == d && has_prefix s p

-- strings.Contains(s, sub)
unfoldable pub contains : Text → Text → Bool
unfolding has_prefix
contains [] sub = has_prefix [] sub
contains (c ∷ s) sub = has_prefix (c ∷ s) sub || contains s sub

-- strings.Split(s, sep) where `sep` is one character.
unfoldable pub split_from : ℕ → Text → Text → List Text
split_from sep [] cur = cur ∷ []
split_from sep (c ∷ s) cur =
    let cut = cur ∷ split_from sep s [] in
    let keep = split_from sep s (cur ++ c ∷ []) in if c == sep then cut else keep

unfoldable pub split : Text → ℕ → List Text
unfolding split_from
split s sep = split_from sep s []

-- strings.TrimLeft(s, cutset) where `cutset` is one character.
unfoldable pub trim_left : Text → ℕ → Text
trim_left [] c = []
trim_left (d ∷ s) c = let rest = trim_left s c in if d == c then rest else d ∷ s

-- unicode.IsSpace
unfoldable pub is_space : ℕ → Bool
is_space c =
    (leb 9 c && leb c 13)
    || c == 32
    || c == 0x85
    || c == 0xa0
    || c == 0x1680
    || (leb 0x2000 c && leb c 0x200a)
    || c == 0x2028
    || c == 0x2029
    || c == 0x202f
    || c == 0x205f
    || c == 0x3000

unfoldable pub trim_left_space : Text → Text
unfolding is_space
trim_left_space [] = []
trim_left_space (c ∷ s) = let rest = trim_left_space s in if is_space c then rest else c ∷ s

-- strings.TrimSpace
unfoldable pub trim_space : Text → Text
unfolding trim_left_space
trim_space s = reverse (trim_left_space (reverse (trim_left_space s)))

-- strings.TrimPrefix(s, prefix): the rest behind a prefix, if it is one.
unfoldable pub strip_prefix? : Text → Text → Option Text
strip_prefix? s [] = some s
strip_prefix? [] (c ∷ p) = none
strip_prefix? (d ∷ s) (c ∷ p) = if c == d then strip_prefix? s p else none

-- strings.SplitN(s, sep, 2) where `sep` is one character: the parts before and behind the first
-- separator, or none where the text has no separator.
unfoldable pub cut_at : ℕ → Text → Option (Text × Text)
cut_at sep [] = none
cut_at sep (c ∷ s) =
    let rest = cut_at sep s in
    if c == sep then some ([], s) else elim rest [ none ↦ none | some (a, b) ↦ some (c ∷ a, b) ]

-- s[strings.LastIndexByte(s, sep)+1:], and the whole text where `sep` does not occur.
unfoldable pub behind_last_from : ℕ → Text → Text → Text
behind_last_from sep [] last = last
behind_last_from sep (c ∷ s) last = behind_last_from sep s (if c == sep then s else last)

unfoldable pub behind_last : ℕ → Text → Text
unfolding behind_last_from
behind_last sep s = behind_last_from sep s s

-- strings.ReplaceAll(s, old, new) at an `old` that is not empty: from the left, and a match is not
-- searched again. The counter skips what is left of a match.
unfoldable pub replace_from : Text → Text → ℕ → Text → Text
unfolding has_prefix
replace_from old new k [] = []
replace_from old new (suc k) (c ∷ s) = replace_from old new k s
replace_from old new zero (c ∷ s) =
    let found = new ++ replace_from old new (length old - 1) s in
    let copied = c ∷ replace_from old new zero s in if has_prefix (c ∷ s) old then found else copied

unfoldable pub replace_all : Text → Text → Text → Text
unfolding replace_from
replace_all s old new = replace_from old new zero s

-- strings.Replace(s, old, new, 1)
unfoldable pub replace_first : Text → Text → Text → Text
replace_first [] old new = elim (strip_prefix? [] old) [ none ↦ [] | some rest ↦ new ++ rest ]
replace_first (c ∷ s) old new =
    let later = c ∷ replace_first s old new in
    elim (strip_prefix? (c ∷ s) old) [ none ↦ later | some rest ↦ new ++ rest ]

pub text_eq_iff : (s t : Text) → (text_eq s t ≡ true) ↔ (s ≡ t)
unfolding text_eq
text_eq_iff [] [] = ground arith
text_eq_iff [] (d ∷ t) = ground arith
text_eq_iff (c ∷ s) [] = ground arith
text_eq_iff (c ∷ s) (d ∷ t) = ground (arith, text_eq_iff s t)

pub text_eq_refl : (s : Text) → text_eq s s ≡ true
text_eq_refl s = (text_eq_iff s s).1 refl
