-- ===== src/Upgrade/Paths.antt =====
-- What the upgrade check allows.
use csm_operator.Prelude.{
  ◌<◌, ℕ, ◌&&◌, ◌||◌, Bool, true, false, ◌≡◌, ap, arith, ltb, leb, ◌==◌, ok, is_ok,
}
use csm_operator.Prelude.Text.{Text, text_eq, text_eq_iff}
use csm_operator.Files.{ComponentType, OperatorConfig}
use csm_operator.Version.{int64_size, version_parser, min_version_check}
use csm_operator.Version.Order.{min_version_check-version}
use csm_operator.Version.Parser.{version, version_parser-version}
use csm_operator.Upgrade.{get_upgrade_info, decide_upgrade, is_valid_upgrade}

-- A modification of an installation, which keeps the version, needs no upgrade path.
pub is_valid_upgrade_refl :
    (v : Text) (t : ComponentType) (op : OperatorConfig) → is_valid_upgrade v v t op ≡ ok true
unfolding is_valid_upgrade
is_valid_upgrade_refl v t op = ground (arith, text_eq_iff v v)

-- Where the second version meets the first, and the first does not meet the second, the way up and
-- the way down have the same result: both are allowed, or both fail with the same error.
pub is_valid_upgrade_symm :
    (u v : Text) (t : ComponentType) (op : OperatorConfig)
    → min_version_check u v ≡ ok true
    → min_version_check v u ≡ ok false
    → is_valid_upgrade u v t op ≡ is_valid_upgrade v u t op
unfolding is_valid_upgrade
is_valid_upgrade_symm u v t op up down = ground (arith, text_eq_iff u v, text_eq_iff v u)

-- An upgrade is decided by the path's least version against the old version.
upgrade_decided :
    (u v w : Text) (t : ComponentType) (op : OperatorConfig) (b : Bool)
    → text_eq u v ≡ false
    → min_version_check u v ≡ ok true
    → op.upgrade_path t v ≡ ok w
    → min_version_check w u ≡ ok b
    → is_ok (is_valid_upgrade u v t op) ≡ b
unfolding is_valid_upgrade decide_upgrade get_upgrade_info
upgrade_decided u v w t op true d up path least = ground arith
upgrade_decided u v w t op false d up path least = ground arith

abbrev Newer : ℕ → ℕ → ℕ → ℕ → Type 0
Newer a b a' b' = (ltb a a' || (a == a' && ltb b b')) ≡ true

versions_differ :
    (a b c a' b' c' : ℕ)
    → (a < int64_size) × (b < int64_size) × (c < int64_size)
    → (a' < int64_size) × (b' < int64_size) × (c' < int64_size)
    → Newer a b a' b'
    → text_eq (version a b c) (version a' b' c') ≡ false
versions_differ a b c a' b' c' (ha, hb, hc) (ha', hb', hc') up = ground (
  arith,
  text_eq_iff (version a b c) (version a' b' c'),
  version_parser-version a b c ha hb hc,
  version_parser-version a' b' c' ha' hb' hc',
  λ (e : version a b c ≡ version a' b' c'). ap version_parser e,
)

-- An upgrade between printed versions with numbers below 2 ^ 63, to a newer major or minor number,
-- whose path names a printed least version, is allowed exactly when that one is not above the old
-- version in its major and minor numbers.
pub is_valid_upgrade-version :
    (a b c a' b' c' m n k : ℕ) (t : ComponentType) (op : OperatorConfig)
    → (a < int64_size) × (b < int64_size) × (c < int64_size)
    → (a' < int64_size) × (b' < int64_size) × (c' < int64_size)
    → (m < int64_size) × (n < int64_size) × (k < int64_size)
    → Newer a b a' b'
    → op.upgrade_path t (version a' b' c') ≡ ok (version m n k)
    → is_ok (is_valid_upgrade (version a b c) (version a' b' c') t op)
      ≡ (ltb m a || (m == a && leb n b))
is_valid_upgrade-version a b c a' b' c' m n k t op h h' hm up path =
    upgrade_decided (version a b c) (version a' b' c') (version m n k) t op _
      (versions_differ a b c a' b' c' h h' up)
      (rw (min_version_check-version a b c a' b' c' h h') (ground arith)) path
      (min_version_check-version m n k a b c hm h)
