-- ===== src/Objects/Store.antt =====
-- The keys under which a store has objects, before and behind calls that succeed.
use csm_operator.Prelude.{
  ℕ, Bool, true, not, ◌&&◌, ◌||◌, Option, List, [], ◌++◌, ◌≡◌, refl, ap, sym, subst, ◌∙◌, ◌↔◌,
  arith, is_some, any, any-append, Result, ok, Err,
}
use csm_operator.Prelude.Text.{text_eq_iff}
use csm_operator.Exec.{attempt, Exec, ◌>>=◌, ◌>>◌, >>=-elim, pure}
use csm_operator.Objects.{Key, key_eq, Object, is_not_found}

pub key_eq_iff : (a b : Key) → (key_eq a b ≡ true) ↔ (a ≡ b)
unfolding key_eq
key_eq_iff a b = ground (
  arith,
  text_eq_iff a.kind b.kind,
  text_eq_iff a.namespace b.namespace,
  text_eq_iff a.name b.name,
)

pub is_not_found-true : (e : Err) → is_not_found e ≡ true → e ≡ Err.not_found
is_not_found-true Err.not_found h = refl
is_not_found-true e h = cc

-- Is the key one of these?
abbrev pub named : List Key → Key → Bool
named ks j = any (λ k. key_eq k j) ks

module _ {W : Type 0} (holds : W → Key → Option ℕ) where
  abbrev pub has : W → Key → Bool
  has w j = is_some (holds w j)

  -- A call that succeeds adds these keys, and no other changes.
  abbrev pub Adds : List Key → Exec W (Unit {0}) → Type 0
  Adds ks m = (w : W) (j : Key) → (m w).0 ≡ ok tt → has (m w).1 j ≡ (named ks j || has w j)

  -- A call that succeeds removes these keys, and no other changes.
  abbrev pub Removes : List Key → Exec W (Unit {0}) → Type 0
  Removes ks m = (w : W) (j : Key) → (m w).0 ≡ ok tt → has (m w).1 j ≡ (not (named ks j) && has w j)

  -- A call that succeeds changes what is there by this function.
  abbrev pub Changes : (Key → Bool → Bool) → Exec W (Unit {0}) → Type 0
  Changes f m = (w : W) (j : Key) → (m w).0 ≡ ok tt → has (m w).1 j ≡ f j (has w j)

  pub >>-Changes :
      (f g : Key → Bool → Bool) (m n : Exec W (Unit {0}))
      → Changes f m
      → Changes g n
      → Changes (λ j b. g j (f j b)) (m >> n)
  >>-Changes f g m n p q w j =
      >>=-elim (λ o. has o.1 j ≡ g j (f j (has w j))) m (λ _. n) w
        (λ _ h i. q (m w).1 j i ∙ ap (g j) (p w j h))

  pub pure-Adds : Adds [] (pure tt)
  unfolding pure any
  pure-Adds w j h = refl

  pub pure-Removes : Removes [] (pure tt)
  unfolding pure any
  pure-Removes w j h = refl

  pub >>-Adds :
      (ks ls : List Key) (m n : Exec W (Unit {0}))
      → Adds ks m
      → Adds ls n
      → Adds (ks ++ ls) (m >> n)
  >>-Adds ks ls m n p q w j =
      >>=-elim (λ o. has o.1 j ≡ (named (ks ++ ls) j || has w j)) m (λ _. n) w
        (λ _ h g. rw (q (m w).1 j g, p w j h) (ground (arith, any-append (λ k. key_eq k j) ks ls)))

  pub >>-Removes :
      (ks ls : List Key) (m n : Exec W (Unit {0}))
      → Removes ks m
      → Removes ls n
      → Removes (ks ++ ls) (m >> n)
  >>-Removes ks ls m n p q w j =
      >>=-elim (λ o. has o.1 j ≡ (not (named (ks ++ ls) j) && has w j)) m (λ _. n) w
        (λ _ h g. rw (q (m w).1 j g, p w j h) (ground (arith, any-append (λ k. key_eq k j) ks ls)))

-- A read changes nothing: what is shown of the rest, run on the same world, holds of the whole.
pub read-elim :
    {W : Type 0} (read : Exec W Object)
    → ((w : W) → (read w).1 ≡ w)
    → (P : Result (Unit {0}) × W → Type 0) (f : Result Object → Exec W (Unit {0})) (w : W)
    → ((f (read w).0 w).0 ≡ ok tt → P (f (read w).0 w))
    → ((attempt read >>= f) w).0 ≡ ok tt
    → P ((attempt read >>= f) w)
unfolding attempt ◌>>=◌
read-elim {W} read stays P f w p =
    subst (λ (w' : W). (f (read w).0 w').0 ≡ ok tt → P (f (read w).0 w')) (sym (stays w)) p
