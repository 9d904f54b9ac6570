-- ===== src/Drivers/Arrays/Mdm.antt =====
-- The arrays of a PowerFlex secret that are accepted.
use csm_operator.Prelude.{
  ℕ, ◌+◌, ◌≤◌, Bool, true, not, ◌&&◌, ◌||◌, List, [], ◌∷◌, ◌≡◌, refl, arith, if◌then◌else◌, ltb,
  leb, any, all, is_ok, is_ok->>=, ok, ap, ◌∙◌, ◌≢◌,
}
use csm_operator.Prelude.Text.{Text, text_eq, text_eq_iff, is_empty}
use csm_operator.Drivers.Addresses.{validate_ip_address}
use csm_operator.Drivers.Arrays.{
  StorageArray, Yaml, mdm_of_config, check_array, add_mdm, check_fields, count_default, collect_mdm,
}

-- Nothing that is asked for is empty, and the MDM addresses are valid, if there are any.
abbrev pub is_complete : StorageArray → Bool
is_complete a =
    not (is_empty a.system_id)
    && (not (is_empty a.username)
        && (not (is_empty a.password)
            && (not (is_empty a.endpoint) && (is_empty a.mdm || (validate_ip_address a.mdm).1))))

abbrev pub same_id : StorageArray → StorageArray → Bool
same_id a b = text_eq a.system_id b.system_id

-- No two arrays have one identifier.
abbrev pub are_distinct : List StorageArray → Bool
are_distinct [] = true
are_distinct (a ∷ rest) = not (any (same_id a) rest) && are_distinct rest

abbrev pub defaults_of : List StorageArray → ℕ
defaults_of [] = 0
defaults_of (a ∷ rest) = (if a.is_default then 1 else 0) + defaults_of rest

-- None of the arrays has an identifier of these.
abbrev are_unseen : List Text → List StorageArray → Bool
are_unseen seen [] = true
are_unseen seen (a ∷ rest) = not (any (text_eq a.system_id) seen) && are_unseen seen rest

text_eq_comm : (s t : Text) → text_eq s t ≡ text_eq t s
text_eq_comm s t = ground (arith, text_eq_iff s t, text_eq_iff t s)

are_unseen-cons :
    (a : StorageArray) (seen : List Text) (rest : List StorageArray)
    → are_unseen (a.system_id ∷ seen) rest ≡ (not (any (same_id a) rest) && are_unseen seen rest)
unfolding any
are_unseen-cons a seen [] = refl
are_unseen-cons a seen (b ∷ rest) =
    ground (arith, are_unseen-cons a seen rest, text_eq_comm a.system_id b.system_id)

is_ok-add_mdm :
    (i : ℕ) (mdm own : Text)
    → is_ok (add_mdm i mdm own) ≡ (is_empty own || (validate_ip_address own).1)
unfolding add_mdm
is_ok-add_mdm i mdm own = ground arith

is_ok-check_fields :
    (a : StorageArray)
    → is_ok (check_fields a) ≡ (
        not (is_empty a.system_id)
        && (not (is_empty a.username) && (not (is_empty a.password) && not (is_empty a.endpoint))))
unfolding check_fields
is_ok-check_fields a = ground arith

is_ok-check_array :
    (i : ℕ) (mdm : Text) (seen : List Text) (defaults : ℕ) (a : StorageArray)
    → is_ok (check_array i mdm seen defaults a) ≡ (
        is_complete a
        && (not (any (text_eq a.system_id) seen) && not (ltb 1 (count_default defaults a))))
unfolding check_array
is_ok-check_array i mdm seen defaults a =
    let dup = any (text_eq a.system_id) seen in
    let many = ltb 1 (count_default defaults a) in
    is_ok->>= (check_fields a) _
      ((is_empty a.mdm || (validate_ip_address a.mdm).1) && (not dup && not many))
      (λ _ _.
        is_ok->>= (add_mdm i mdm a.mdm) _ (not dup && not many) (λ _ _. ground arith)
        ∙ ap (λ b. b && (not dup && not many)) (is_ok-add_mdm i mdm a.mdm))
    ∙ ground (arith, is_ok-check_fields a)

is_ok-collect_mdm :
    (i : ℕ) (mdm : Text) (seen : List Text) (defaults : ℕ) (arrays : List StorageArray)
    → defaults ≤ 1
    → is_ok (collect_mdm i mdm seen defaults arrays) ≡ (
        all is_complete arrays
        && (are_unseen seen arrays
            && (are_distinct arrays && leb (defaults + defaults_of arrays) 1)))
unfolding collect_mdm all
is_ok-collect_mdm i mdm seen defaults [] h = ground arith
is_ok-collect_mdm i mdm seen defaults (a ∷ rest) h =
    is_ok->>= (check_array i mdm seen defaults a) _
      (all is_complete rest
        && (are_unseen (a.system_id ∷ seen) rest
            && (are_distinct rest && leb (count_default defaults a + defaults_of rest) 1)))
      (λ mdm' e.
        is_ok-collect_mdm (i + 1) mdm' (a.system_id ∷ seen) (count_default defaults a) rest
          (ground (arith, ap is_ok e, is_ok-check_array i mdm seen defaults a)))
    ∙ ground (arith, is_ok-check_array i mdm seen defaults a, are_unseen-cons a seen rest)

unseen_nil : (arrays : List StorageArray) → are_unseen [] arrays ≡ true
unfolding any
unseen_nil [] = refl
unseen_nil (a ∷ rest) = unseen_nil rest

-- Of a secret's list of arrays that is not empty: the MDM value can be made of it exactly when each
-- array has its identifier, user, password and endpoint and no MDM list but of addresses, no two have
-- one identifier, and one array at most is a default.
pub is_ok-mdm_of_config :
    (yaml : Yaml) (config text : Text)
    → config ≢ []
    → yaml.json_to_yaml config ≡ ok text
    → is_ok (mdm_of_config yaml config) ≡ (
        all is_complete (yaml.storage_arrays text)
        && (are_distinct (yaml.storage_arrays text)
            && leb (defaults_of (yaml.storage_arrays text)) 1))
unfolding mdm_of_config is_empty
is_ok-mdm_of_config yaml [] text h e = absurd (h refl)
is_ok-mdm_of_config yaml (c ∷ config) text h e = rw (e) (
    is_ok-collect_mdm 0 [] [] 0 (yaml.storage_arrays text) (omega arith)
    ∙ ground (arith, unseen_nil (yaml.storage_arrays text)))
