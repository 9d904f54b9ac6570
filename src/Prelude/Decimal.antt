-- ===== src/Prelude/Decimal.antt =====
-- Numbers in decimal: the verb %d of package `fmt` and the digit loop of package `strconv`.
use Prim.Native.Nat.{ℕ, zero, suc, ◌+◌, ◌-◌, ◌*◌, ◌/◌, ◌%◌, ◌^◌, ◌≤◌, ◌<◌}
use mathlib.Core.Path.{◌≡◌, refl, ap, ◌∙◌}
use mathlib.Core.Logic.{◌≢◌, inl, inr}
use mathlib.Core.Bool.{false, ◌||◌}
use mathlib.Core.Option.{Option, none, some}
use mathlib.Core.List.{[], ◌∷◌}
use native.Mathlib.Omega.{arith}
use csm_operator.Prelude.Tests.{ltb, leb, ◌==◌, if◌then◌else◌, Bool-cases}
use csm_operator.Prelude.Lists.{All}
use csm_operator.Prelude.Text.{Text, text_eq, text_eq_iff}

abbrev pub max_uint64 : ℕ
max_uint64 = 2 ^ 64 - 1

-- The loop of `strconv.ParseUint` at base 10. `none` is a syntax error; a value past 64 bits ends
-- the loop with the largest one.
unfoldable pub scan_digits : Text → ℕ → Option ℕ
scan_digits [] n = some n
scan_digits (c ∷ s) n =
    let d = c - b'0' in
    let rest = scan_digits s (n * 10 + d) in
    if ltb c b'0' || ltb b'9' c
    then none
    else if leb (max_uint64 / 10 + 1) n || ltb max_uint64 (n * 10 + d)
    then some max_uint64
    else rest

-- One digit for each round; the fuel is a round for each unit, and more than is used.
unfoldable pub emit_digits : ℕ → ℕ → Text → Text
emit_digits zero n out = out
emit_digits (suc fuel) n out =
    let more = emit_digits fuel (n / 10) ((b'0' + n % 10) ∷ out) in if n == 0 then out else more

-- fmt.Sprintf("%d", n)
unfoldable pub format_nat : ℕ → Text
unfolding emit_digits
format_nat n = if n == 0 then b'0' ∷ [] else emit_digits (suc n) n []

abbrev pub IsDigit : ℕ → Type 0
IsDigit c = (b'0' ≤ c) × (c ≤ b'9')

emit_digits-IsDigit :
    (fuel n : ℕ) (out : Text) → All IsDigit out → All IsDigit (emit_digits fuel n out)
unfolding emit_digits
emit_digits-IsDigit zero n out h = h
emit_digits-IsDigit (suc fuel) n out h = ground (
  arith,
  emit_digits-IsDigit fuel (n / 10) ((b'0' + n % 10) ∷ out) ((omega arith, omega arith), h),
)

pub format_nat-IsDigit : (n : ℕ) → All IsDigit (format_nat n)
unfolding format_nat
format_nat-IsDigit n = ground (arith, emit_digits-IsDigit (suc n) n [] tt)

scan_one :
    (d m : ℕ) (out : Text)
    → d ≤ 9
    → m * 10 + d ≤ max_uint64
    → scan_digits ((b'0' + d) ∷ out) m ≡ scan_digits out (m * 10 + d)
unfolding scan_digits
scan_one d m out h b = let e : b'0' + d - b'0' ≡ d = omega arith in rw e (ground arith)

-- Enough fuel: the digits of `n` are read back as `n`, and the rest of the text follows.
scan_digits-emit_digits :
    (fuel n : ℕ) (out : Text)
    → n < fuel
    → n ≤ max_uint64
    → scan_digits (emit_digits fuel n out) 0 ≡ scan_digits out n
unfolding emit_digits
scan_digits-emit_digits zero n out h b = elim h [ ]
scan_digits-emit_digits (suc fuel) n out h b = elim (Bool-cases (n == 0)) [
  | inl done ↦ let z : n ≡ 0 = ground arith in rw z
  | inr more ↦
      let below : n / 10 < fuel = ground arith in
      let small : n / 10 ≤ max_uint64 = omega arith in
      let whole : n / 10 * 10 + n % 10 ≡ n = omega arith in
      rw more (
        scan_digits-emit_digits fuel (n / 10) ((b'0' + n % 10) ∷ out) below small
        ∙ scan_one (n % 10) (n / 10) out (omega arith) (omega arith)
        ∙ ap (scan_digits out) whole)
]

format_nat_pos : (n : ℕ) → (n == 0) ≡ false → format_nat n ≡ emit_digits (suc n) n []
unfolding format_nat
format_nat_pos n h = rw h

format_nat_zero : format_nat 0 ≡ b'0' ∷ []
unfolding format_nat
format_nat_zero = refl

scan_nil : (m : ℕ) → scan_digits [] m ≡ some m
unfolding scan_digits
scan_nil m = refl

-- What %d prints is read back, up to the largest 64-bit number.
pub scan_digits-format_nat : (n : ℕ) → n ≤ max_uint64 → scan_digits (format_nat n) 0 ≡ some n
scan_digits-format_nat n b = elim (Bool-cases (n == 0)) [
  | inl done ↦ let z : n ≡ 0 = ground arith in rw (z, format_nat_zero) (unfold scan_digits in refl)
  | inr more ↦
      rw (format_nat_pos n more, scan_digits-emit_digits (suc n) n [] (omega arith) b) (scan_nil n)
]

format_nat_injective :
    (m n : ℕ) → m ≤ max_uint64 → n ≤ max_uint64 → format_nat m ≡ format_nat n → m ≡ n
format_nat_injective m n hm hn e = cc (scan_digits-format_nat m hm, scan_digits-format_nat n hn, e)

-- Two counts are compared by their texts.
pub text_eq-format_nat :
    (m n : ℕ) → m ≤ max_uint64 → n ≤ max_uint64 → text_eq (format_nat m) (format_nat n) ≡ (m == n)
text_eq-format_nat m n hm hn = ground (
  arith,
  text_eq_iff (format_nat m) (format_nat n),
  format_nat_injective m n hm hn,
  λ (e : m ≡ n). ap format_nat e,
)

emit_digits-ne-nil : (fuel n c : ℕ) (out : Text) → emit_digits fuel n (c ∷ out) ≢ []
unfolding emit_digits
emit_digits-ne-nil zero n c out e = cc
emit_digits-ne-nil (suc fuel) n c out e =
    ground (arith, emit_digits-ne-nil fuel (n / 10) (b'0' + n % 10) (c ∷ out))

-- A printed number has a first digit.
pub format_nat-ne-nil : (n : ℕ) → format_nat n ≢ []
unfolding format_nat emit_digits
format_nat-ne-nil n e = ground (arith, emit_digits-ne-nil n (n / 10) (b'0' + n % 10) [])
