-- ===== src/Exec.antt =====
-- Calls that leave the program: they act on a world that the program shares with other clients, so
-- each takes a world and gives one back, also where it fails.
use csm_operator.Prelude.{List, ℕ, Result, ok, err, Err, wrap, ◌≡◌, refl}

abbrev pub Exec {ℓ} : Type 0 → Type ℓ → Type ℓ
Exec W A = W → Result A × W

abbrev pub continue {ℓ κ} :
    {W : Type 0} {A : Type ℓ} {B : Type κ} → Result A → (A → Exec W B) → W → Result B × W
continue (ok a) f w = f a w
continue (err e) f w = (err e, w)

infixl 5 ◌>>=◌ ◌>>◌
unfoldable pub ◌>>=◌ {ℓ κ} :
    {W : Type 0} {A : Type ℓ} {B : Type κ} → Exec W A → (A → Exec W B) → Exec W B
◌>>=◌ m f w = let (r, w') = m w in continue r f w'

abbrev pub ◌>>◌ {ℓ κ} : {W : Type 0} {A : Type ℓ} {B : Type κ} → Exec W A → Exec W B → Exec W B
m >> n = m >>= λ _. n

unfoldable pub pure {ℓ} : {W : Type 0} {A : Type ℓ} → A → Exec W A
pure a w = (ok a, w)

unfoldable pub raise {ℓ} : {W : Type 0} {A : Type ℓ} → Err → Exec W A
raise e w = (err e, w)

unfoldable pub lift {ℓ} : {W : Type 0} {A : Type ℓ} → Result A → Exec W A
lift r w = (r, w)

-- The result as a value, for code that looks at an error and goes on.
unfoldable pub attempt {ℓ} : {W : Type 0} {A : Type ℓ} → Exec W A → Exec W (Result A)
attempt m w = let (r, w') = m w in (ok r, w')

-- `if err != nil { return fmt.Errorf("text: %v", err) }` behind a call.
abbrev pub wrapping {ℓ} : {W : Type 0} {A : Type ℓ} → List ℕ → Exec W A → Exec W A
wrapping t m w = let (r, w') = m w in (wrap t r, w')

continue-ok {ℓ κ} :
    {W : Type 0} {A : Type ℓ} {B : Type κ} (r : Result A) (f : A → Exec W B) (w : W) {b : B}
    → (continue r f w).0 ≡ ok b
    → (a : A) × (r ≡ ok a) × ((f a w).0 ≡ ok b)
continue-ok (ok a) f w h = (a, refl, h)
continue-ok (err e) f w h = cc

-- A block that succeeds has had its first call succeed, and the rest behind it.
pub >>=-ok {ℓ κ} :
    {W : Type 0} {A : Type ℓ} {B : Type κ} (m : Exec W A) (f : A → Exec W B) (w : W) {b : B}
    → ((m >>= f) w).0 ≡ ok b
    → (a : A) × ((m w).0 ≡ ok a) × ((f a (m w).1).0 ≡ ok b)
unfolding ◌>>=◌
>>=-ok m f w h = continue-ok (m w).0 f (m w).1 h

-- To show a property of a block that succeeds, show it of the rest behind a first call that does.
pub >>=-elim {ℓ κ μ} :
    {W : Type 0} {A : Type ℓ} {B : Type κ} (P : Result B × W → Type μ) (m : Exec W A)
    (f : A → Exec W B) (w : W) {b : B}
    → ((a : A) → (m w).0 ≡ ok a → (f a (m w).1).0 ≡ ok b → P (f a (m w).1))
    → ((m >>= f) w).0 ≡ ok b
    → P ((m >>= f) w)
unfolding ◌>>=◌
>>=-elim {W} {A} {B} P m f w {b} k = behind (m w).0 refl
  where
    behind :
        (r : Result A) → (m w).0 ≡ r → (continue r f (m w).1).0 ≡ ok b → P (continue r f (m w).1)
    behind (ok a) e h = k a e h
    behind (err e) _ h = cc
