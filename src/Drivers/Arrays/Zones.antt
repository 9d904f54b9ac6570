-- ===== src/Drivers/Arrays/Zones.antt =====
-- The zones of a PowerFlex secret that are accepted.
use csm_operator.Prelude.{
  ℕ, ◌+◌, ◌<◌, Bool, true, false, not, ◌&&◌, ◌||◌, List, [], ◌∷◌, ◌≡◌, refl, arith, if◌then◌else◌,
  ltb, ◌==◌, all, length, is_ok, Result, Bool-cases, inl, inr, ◌>>=◌,
}
use csm_operator.Prelude.Text.{Text, codes, text_eq, text_eq_iff, is_empty}
use csm_operator.Drivers.Arrays.{
  ZonedArray, reject_if, has_no_zone, check_zone, count_zones, validate_zones,
}

abbrev pub has_id : ZonedArray → Bool
has_id a = not (is_empty a.zoned_id)

-- The array has a zone with a name and with this label key.
abbrev pub has_zone : Text → ZonedArray → Bool
has_zone key a =
    not (is_empty a.zone_name) && (not (is_empty a.label_key) && text_eq key a.label_key)

-- All arrays have a zone, with the label key of the first.
abbrev pub share_label : List ZonedArray → Bool
share_label [] = true
share_label (a ∷ rest) = all (has_zone a.label_key) (a ∷ rest)

-- The last check, of the number of arrays with a zone.
abbrev all_or_none : ℕ → ℕ → Result (Unit {0})
all_or_none total n =
    reject_if (ltb 0 n && not (total == n)) (codes "not all arrays have zoning configured")

-- The zone is complete, with the label key that was found before it, if one was.
abbrev fits : Text → ZonedArray → Bool
fits key a =
    not (is_empty a.label_key)
    && ((is_empty key || text_eq key a.label_key) && not (is_empty a.zone_name))

is_ok-check_zone :
    (key : Text) (a : ZonedArray) (count : Text → Result ℕ) (next : ℕ → Result (Unit {0}))
    → is_ok ((check_zone key a >>= count) >>= next)
      ≡ (fits key a && is_ok (count a.label_key >>= next))
unfolding check_zone
is_ok-check_zone key a count next = ground arith

count_zones-cons :
    (key : Text) (n : ℕ) (a : ZonedArray) (rest : List ZonedArray) (next : ℕ → Result (Unit {0}))
    → is_ok (count_zones key n (a ∷ rest) >>= next) ≡ (
        has_id a
        && (if has_no_zone a
            then is_ok (count_zones key n rest >>= next)
            else (fits key a && is_ok (count_zones a.label_key (n + 1) rest >>= next))))
unfolding count_zones
count_zones-cons key n a rest next = elim (Bool-cases (is_empty a.zoned_id)) [
  | inl e ↦ rw e refl
  | inr e ↦ elim (Bool-cases (has_no_zone a)) [
    | inl d ↦ rw (e, d) refl
    | inr d ↦ rw (e, d) (is_ok-check_zone key a (λ k. count_zones k (n + 1) rest) next)
  ]
]

-- One array without and one with a zone: the list is refused.
count_zones_mixed :
    (key : Text) (n total : ℕ) (arrays : List ZonedArray)
    → 0 < n
    → n + length arrays < total
    → is_ok (count_zones key n arrays >>= all_or_none total) ≡ false
unfolding count_zones
count_zones_mixed key n total [] h k = ground arith
count_zones_mixed key n total (a ∷ rest) h k = ground (
  arith,
  count_zones-cons key n a rest (all_or_none total),
  count_zones_mixed key n total rest h (omega arith),
  count_zones_mixed a.label_key (n + 1) total rest (omega arith) (omega arith),
)

-- Behind an array without a zone: no other may have one.
count_zones_none :
    (total : ℕ) (arrays : List ZonedArray)
    → length arrays < total
    → is_ok (count_zones [] 0 arrays >>= all_or_none total)
      ≡ (all has_id arrays && all has_no_zone arrays)
unfolding count_zones all is_empty
count_zones_none total [] k = ground arith
count_zones_none total (a ∷ rest) k = ground (
  arith,
  count_zones-cons [] 0 a rest (all_or_none total),
  count_zones_none total rest (omega arith),
  count_zones_mixed a.label_key 1 total rest (omega arith) (omega arith),
)

-- Behind an array with a zone: all others must have one with its label key.
count_zones-all :
    (key : Text) (n total : ℕ) (arrays : List ZonedArray)
    → is_empty key ≡ false
    → 0 < n
    → n + length arrays ≡ total
    → is_ok (count_zones key n arrays >>= all_or_none total)
      ≡ (all has_id arrays && all (has_zone key) arrays)
unfolding count_zones all
count_zones-all key n total [] e h k = ground arith
count_zones-all key n total (a ∷ rest) e h k = ground (
  arith,
  count_zones-cons key n a rest (all_or_none total),
  count_zones_mixed key n total rest h (omega arith),
  text_eq_iff key a.label_key,
  λ (d : is_empty a.label_key ≡ false).
      count_zones-all a.label_key (n + 1) total rest d (omega arith) (omega arith),
)

count_zones_lem :
    (arrays : List ZonedArray)
    → is_ok (count_zones [] 0 arrays >>= all_or_none (length arrays))
      ≡ (all has_id arrays && (all has_no_zone arrays || share_label arrays))
unfolding count_zones all is_empty
count_zones_lem [] = ground arith
count_zones_lem (a ∷ rest) = ground (
  arith,
  count_zones-cons [] 0 a rest (all_or_none (length (a ∷ rest))),
  count_zones_none (length (a ∷ rest)) rest (omega arith),
  text_eq_iff a.label_key a.label_key,
  λ (d : is_empty a.label_key ≡ false).
      count_zones-all a.label_key 1 (length (a ∷ rest)) rest d (omega arith) (omega arith),
)

-- Of a list of arrays: its zones are accepted exactly when each array has an identifier, and either no
-- array has a zone, or each has one with a name and with one and the same label key.
pub is_ok-validate_zones :
    (arrays : List ZonedArray)
    → is_ok (validate_zones arrays)
      ≡ (all has_id arrays && (all has_no_zone arrays || share_label arrays))
unfolding validate_zones
is_ok-validate_zones arrays = count_zones_lem arrays
