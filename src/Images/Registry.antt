-- ===== src/Images/Registry.antt =====
-- `ValidateCustomRegistry` of pkg/operatorutils/utils.go. What `url.Parse` of package net/url gives, the
-- scheme and the host, is an argument.
use csm_operator.Prelude.{
  not, ◌&&◌, ◌||◌, [], ◌∷◌, ◌++◌, if◌then◌else◌, ◌==◌, Result, ok, err, is_ok, ◌≡◌, arith,
}
use csm_operator.Prelude.Text.{Text, codes, is_empty, trim_space, has_prefix}

abbrev pub UrlParse : Type 0
UrlParse = Text → Result (Text × Text)

-- strings.TrimRight(s, "/")
unfoldable pub trim_slashes : Text → Text
trim_slashes [] = []
trim_slashes (c ∷ s) =
    let rest = trim_slashes s in if c == b'/' && is_empty rest then [] else c ∷ rest

-- The text that is parsed.
unfoldable pub registry_url : Text → Text
registry_url registry =
    let url = trim_slashes registry in
    if not (has_prefix url (codes "http://")) && not (has_prefix url (codes "https://"))
    then codes "http://" ++ url
    else url

-- A URL without a scheme or host takes the branch of an error, but returns the parser's, which is nil.
unfoldable pub validate_custom_registry : UrlParse → Text → Result (Unit {0})
validate_custom_registry parse registry =
    let parsed = parse (registry_url (trim_space registry)) in
    if is_empty (trim_space registry) then ok tt else elim parsed [
      | err e ↦ err e
      | ok (scheme, host) ↦ if not (is_empty scheme) && not (is_empty host) then ok tt else ok tt
    ]

-- A registry passes exactly where it is blank or its URL can be parsed: what the URL has for a scheme and
-- a host does not count.
pub is_ok-validate_custom_registry :
    (parse : UrlParse) (registry : Text)
    → is_ok (validate_custom_registry parse registry)
      ≡ (is_empty (trim_space registry) || is_ok (parse (registry_url (trim_space registry))))
unfolding validate_custom_registry
is_ok-validate_custom_registry parse registry = ground arith
