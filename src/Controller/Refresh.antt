-- ===== src/Controller/Refresh.antt =====
-- The interval at which `ContentWatch` of controllers/csm_controller.go lets its informers list
-- everything anew: an environment variable in minutes, read by `strconv.Atoi`, times `time.Minute`, as
-- a number of nanoseconds in 64 bits.
use csm_operator.Prelude.{
  ℕ, ◌+◌, ◌-◌, ◌*◌, ◌%◌, ◌^◌, ◌≤◌, ◌<◌, Bool, true, false, Option, none, some, [], ◌∷◌,
  if◌then◌else◌, leb, ltb, ◌==◌, ℤ, pos, negsuc, neg, ◌≡◌, ◌≢◌, ◌↔◌, refl, ap, arith, get_or, All,
}
use csm_operator.Prelude.Text.{Text, is_empty}
use csm_operator.Prelude.Decimal.{
  IsDigit, scan_digits, format_nat, scan_digits-format_nat, format_nat-IsDigit, format_nat-ne-nil,
}

-- The numbers that `strconv.Atoi` takes without an error.
unfoldable pub parse_magnitude : Bool → Text → Option ℤ
parse_magnitude is_negative [] = none
parse_magnitude is_negative (c ∷ s) = elim (scan_digits (c ∷ s) 0) [
  | none ↦ none
  | some n ↦
      if is_negative
      then (if leb n (2 ^ 63) then some (neg n) else none)
      else (if ltb n (2 ^ 63) then some (pos n) else none)
]

unfoldable pub parse_int : Text → Option ℤ
parse_int [] = none
parse_int (c ∷ s) =
    if c == b'-'
    then parse_magnitude true s
    else if c == b'+'
    then parse_magnitude false s
    else parse_magnitude false (c ∷ s)

-- 60 minutes where the variable is not set, or not a number
unfoldable pub refresh_minutes : Text → ℤ
refresh_minutes text = if is_empty text then pos 60 else get_or (parse_int text) (pos 60)

-- time.Minute
abbrev pub minute : ℕ
minute = 60000000000

-- The number of two's complement in 64 bits.
unfoldable pub of_int64 : ℕ → ℤ
of_int64 r = if ltb r (2 ^ 63) then pos r else negsuc (2 ^ 64 - 1 - r)

-- The product in 64 bits.
unfoldable pub times_minute : ℤ → ℤ
times_minute (pos n) = of_int64 ((n * minute) % 2 ^ 64)
times_minute (negsuc n) = of_int64 ((2 ^ 64 - (((n + 1) * minute) % 2 ^ 64)) % 2 ^ 64)

unfoldable pub refresh_time : Text → ℤ
refresh_time text = times_minute (refresh_minutes text)

-- The most minutes of which the nanoseconds fit into 64 bits.
abbrev pub max_minutes : ℕ
max_minutes = 153722867

of_int64_bound : (r n : ℕ) → of_int64 r ≡ pos n → n < 2 ^ 63
unfolding of_int64
of_int64_bound r n h = ground arith

of_int64_small : (r n : ℕ) → r ≡ n → n < 2 ^ 63 → of_int64 r ≡ pos n
unfolding of_int64
of_int64_small r n e b = ground (arith, ap pos e)

minutes_bound : (n : ℕ) → n * minute < 2 ^ 63 → n ≤ max_minutes
minutes_bound n b = omega arith

times_minute_iff : (n : ℕ) → (times_minute (pos n) ≡ pos (n * minute)) ↔ (n ≤ max_minutes)
unfolding times_minute
times_minute_iff n = (
  λ h. minutes_bound n (of_int64_bound ((n * minute) % 2 ^ 64) (n * minute) h),
  λ b. of_int64_small ((n * minute) % 2 ^ 64) (n * minute) (omega arith) (omega arith),
)

parse_int_of_digits :
    (s : Text) (n : ℕ)
    → All IsDigit s
    → s ≢ []
    → scan_digits s 0 ≡ some n
    → n < 2 ^ 63
    → parse_int s ≡ some (pos n)
unfolding parse_int parse_magnitude
parse_int_of_digits [] n d h e b = absurd (h refl)
parse_int_of_digits (c ∷ s) n d h e b = ground arith

refresh_minutes_of : (s : Text) (z : ℤ) → s ≢ [] → parse_int s ≡ some z → refresh_minutes s ≡ z
unfolding refresh_minutes is_empty
refresh_minutes_of [] z h e = absurd (h refl)
refresh_minutes_of (c ∷ s) z h e = ap (λ o. get_or o (pos 60)) e

refresh_minutes-format_nat : (n : ℕ) → n < 2 ^ 63 → refresh_minutes (format_nat n) ≡ pos n
refresh_minutes-format_nat n b = refresh_minutes_of (format_nat n) (pos n) (format_nat-ne-nil n) (
    parse_int_of_digits (format_nat n) n (format_nat-IsDigit n) (format_nat-ne-nil n)
      (scan_digits-format_nat n (omega arith)) b)

-- For a variable with the decimal digits of a number below 2^63: the interval is that many minutes, in
-- nanoseconds, exactly where the number is no more than 153722867.
pub refresh_time-format_nat :
    (n : ℕ) → n < 2 ^ 63 → (refresh_time (format_nat n) ≡ pos (n * minute)) ↔ (n ≤ max_minutes)
unfolding refresh_time
refresh_time-format_nat n b = rw (refresh_minutes-format_nat n b) (times_minute_iff n)
