-- ===== src/Version/Order.antt =====
-- The comparison of versions is a total preorder on what the parser returns.
use csm_operator.Prelude.{
  >>=-eq-ok, ◌<◌, ℕ, ◌&&◌, ◌||◌, true, false, ◌≡◌, arith, ltb, leb, ◌==◌, ℤ, pos, negsuc, leb_ℤ,
  eq_ℤ, ltb_ℤ, ok, ◌⊎◌,
}
use csm_operator.Prelude.Text.{Text}
use csm_operator.Version.{int64_size, version_parser, meets, min_version_check}
use csm_operator.Version.Parser.{version, version_parser-version}

meets_refl : (v : ℤ × ℤ) → meets v v ≡ true
unfolding meets
meets_refl (pos a, pos b) = ground arith
meets_refl (pos a, negsuc b) = ground arith
meets_refl (negsuc a, pos b) = ground arith
meets_refl (negsuc a, negsuc b) = ground arith

pub meets_total : (v w : ℤ × ℤ) → meets v w ≡ false → meets w v ≡ true
unfolding meets
meets_total (pos a, b) (negsuc c, d) h = ground arith
meets_total (negsuc a, b) (pos c, d) h = ground arith
meets_total (pos a, pos b) (pos c, pos d) h = ground arith
meets_total (pos a, pos b) (pos c, negsuc d) h = ground arith
meets_total (pos a, negsuc b) (pos c, pos d) h = ground arith
meets_total (pos a, negsuc b) (pos c, negsuc d) h = ground arith
meets_total (negsuc a, pos b) (negsuc c, pos d) h = ground arith
meets_total (negsuc a, pos b) (negsuc c, negsuc d) h = ground arith
meets_total (negsuc a, negsuc b) (negsuc c, pos d) h = ground arith
meets_total (negsuc a, negsuc b) (negsuc c, negsuc d) h = ground arith

leb_ℤ_trans : (a b c : ℤ) → leb_ℤ a b ≡ true → leb_ℤ b c ≡ true → leb_ℤ a c ≡ true
unfolding leb_ℤ
leb_ℤ_trans (pos a) (pos b) (pos c) h k = ground arith
leb_ℤ_trans (pos a) (pos b) (negsuc c) h k = cc
leb_ℤ_trans (pos a) (negsuc b) c h k = cc
leb_ℤ_trans (negsuc a) (pos b) (pos c) h k = ground arith
leb_ℤ_trans (negsuc a) (pos b) (negsuc c) h k = cc
leb_ℤ_trans (negsuc a) (negsuc b) (pos c) h k = ground arith
leb_ℤ_trans (negsuc a) (negsuc b) (negsuc c) h k = ground arith

eq_ℤ_iff : (a b : ℤ) → eq_ℤ a b ≡ (leb_ℤ a b && leb_ℤ b a)
unfolding eq_ℤ leb_ℤ
eq_ℤ_iff (pos a) (pos b) = ground arith
eq_ℤ_iff (pos a) (negsuc b) = ground arith
eq_ℤ_iff (negsuc a) (pos b) = ground arith
eq_ℤ_iff (negsuc a) (negsuc b) = ground arith

leb_ℤ_total : (a b : ℤ) → leb_ℤ a b ≡ false → leb_ℤ b a ≡ true
unfolding leb_ℤ
leb_ℤ_total (pos a) (pos b) h = ground arith
leb_ℤ_total (pos a) (negsuc b) h = ground arith
leb_ℤ_total (negsuc a) (pos b) h = ground arith
leb_ℤ_total (negsuc a) (negsuc b) h = ground arith

-- `meets` in terms of the order alone.
meets_order : (a b c d : ℤ) → meets (a, b) (c, d) ≡ (leb_ℤ a c && (ltb_ℤ a c || leb_ℤ b d))
unfolding meets
meets_order a b c d = ground (arith, eq_ℤ_iff c a, leb_ℤ_total a c)

pub meets_trans : (u v w : ℤ × ℤ) → meets u v ≡ true → meets v w ≡ true → meets u w ≡ true
unfolding ltb_ℤ
meets_trans (a, b) (c, d) (e, f) h k = ground (
  arith,
  meets_order a b c d,
  meets_order c d e f,
  meets_order a b e f,
  leb_ℤ_trans a c e,
  leb_ℤ_trans e a c,
  leb_ℤ_trans c e a,
  leb_ℤ_trans b d f,
)

-- Of two versions that parse, one meets the other.
pub min_version_check_total :
    (u v : Text) (m n : ℤ × ℤ)
    → version_parser u ≡ ok m
    → version_parser v ≡ ok n
    → (min_version_check u v ≡ ok true) ⊎ (min_version_check v u ≡ ok true)
unfolding min_version_check
min_version_check_total u v m n p q = rw (p, q) (ground (arith, meets_total m n))

-- A version that meets a second one, which meets a third, meets the third.
pub min_version_check_trans :
    (u v w : Text)
    → min_version_check u v ≡ ok true
    → min_version_check v w ≡ ok true
    → min_version_check u w ≡ ok true
unfolding min_version_check
min_version_check_trans u v w h k =
    let (m, p, rest) = >>=-eq-ok (version_parser u) _ h in
    let (n, q, last) = >>=-eq-ok (version_parser v) _ rest in
    let (n', q', rest') = >>=-eq-ok (version_parser v) _ k in
    let (o, r, last') = >>=-eq-ok (version_parser w) _ rest' in
    let same : n ≡ n' = cc in
    let first : meets m n ≡ true = cc in
    let second : meets n o ≡ true = rw same cc in rw (p, r, meets_trans m n o first second)

-- On printed versions whose numbers are below 2 ^ 63 the check compares the major numbers, and the
-- minor numbers where those are equal; the patch numbers make no difference.
pub min_version_check-version :
    (a b c a' b' c' : ℕ)
    → (a < int64_size) × (b < int64_size) × (c < int64_size)
    → (a' < int64_size) × (b' < int64_size) × (c' < int64_size)
    → min_version_check (version a b c) (version a' b' c') ≡ ok (ltb a a' || (a == a' && leb b b'))
unfolding min_version_check meets
min_version_check-version a b c a' b' c' (ha, hb, hc) (ha', hb', hc') =
    rw (version_parser-version a b c ha hb hc, version_parser-version a' b' c' ha' hb' hc')
      (ground arith)
