-- ===== src/Drivers/Addresses/Laws.antt =====
-- Addresses that are accepted.
use csm_operator.Prelude.{
  ℕ, Bool, true, List, [], ◌∷◌, ◌++◌, map, ◌≡◌, refl, arith, if◌then◌else◌, all, append_assoc,
  append-nil, Option, none, some, Bool-cases, inl, inr, ap, ◌∙◌, &&-left, &&-right, ◌==◌,
}
use csm_operator.Prelude.Text.{Text, split, split_from, trim_space}
use csm_operator.Drivers.Addresses.{is_ipv4, join_commas, validate_pieces, validate_ip_address}

pieces-accepted :
    (before rest : List Text) (kept : Text)
    → (validate_pieces before rest kept).1 ≡ all (λ s. is_ipv4 (trim_space s)) rest
unfolding validate_pieces all
pieces-accepted before [] kept = refl
pieces-accepted before (s ∷ rest) kept = ground (
  arith,
  pieces-accepted (before ++ trim_space s ∷ []) rest
      (join_commas ((before ++ trim_space s ∷ []) ++ rest)),
)

-- Where each piece is an address, the text is that of the trimmed pieces.
pieces-text :
    (before : List Text) (s : Text) (rest : List Text) (kept : Text)
    → all (λ s. is_ipv4 (trim_space s)) (s ∷ rest) ≡ true
    → (validate_pieces before (s ∷ rest) kept).0 ≡ join_commas (before ++ map trim_space (s ∷ rest))
unfolding validate_pieces all
pieces-text before s [] kept h =
    rw (&&-left (is_ipv4 (trim_space s)) _ h)
      (ap join_commas (append-nil (before ++ trim_space s ∷ [])))
pieces-text before s (t ∷ rest) kept h = rw (&&-left (is_ipv4 (trim_space s)) _ h) (
    pieces-text (before ++ trim_space s ∷ []) t rest _ (&&-right _ _ h)
    ∙ ap join_commas (append_assoc before (trim_space s ∷ []) (map trim_space (t ∷ rest))))

-- The pieces of a text are never none.
pub split-cons : (s : Text) (sep : ℕ) → (p : Text) × (ps : List Text) × (split s sep ≡ p ∷ ps)
unfolding split_from split
split-cons s sep = from_cons s sep []
  where
    from_cons :
        (s : Text) (sep : ℕ) (cur : Text)
        → (p : Text) × (ps : List Text) × (split_from sep s cur ≡ p ∷ ps)
    from_cons [] sep cur = (cur, [], refl)
    from_cons (c ∷ s) sep cur = elim (Bool-cases (c == sep)) [
      | inl e ↦ (cur, split_from sep s [], rw e)
      | inr e ↦ rw e (from_cons s sep (cur ++ c ∷ []))
    ]

-- The text of an answer that accepts.
abbrev pub accepted : Text × Bool → Option Text
accepted (text, valid) = if valid then some text else none

-- A list of addresses between commas is accepted exactly when each piece, less the spaces around it, is
-- an address; the text that is given back is then that of the trimmed pieces between commas.
pub accepted-validate_ip_address :
    (s : Text)
    → accepted (validate_ip_address s) ≡ (
        if all (λ p. is_ipv4 (trim_space p)) (split s b',')
        then some (join_commas (map trim_space (split s b',')))
        else none)
unfolding validate_ip_address
accepted-validate_ip_address s =
    let (p, ps, e) = split-cons s b',' in
    elim (Bool-cases (all (λ p. is_ipv4 (trim_space p)) (split s b','))) [
      | inl h ↦
          rw (pieces-accepted [] (split s b',') [], h)
            (ap some (rw (e) (pieces-text [] p ps [] (rw (e) at h))))
      | inr h ↦ rw (pieces-accepted [] (split s b',') [], h) refl
    ]
