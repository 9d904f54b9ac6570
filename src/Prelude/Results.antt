-- ===== src/Prelude/Results.antt =====
-- Errors as values. A Go function that returns `(T, error)` returns a `Result T`.
use mathlib.Core.Path.{◌≡◌, refl}
use mathlib.Core.Bool.{Bool, true, false, ◌&&◌}
use mathlib.Core.List.{List}
use Prim.Native.Nat.{ℕ}

-- The errors that the code tells apart, and those that it builds. The first four are the API
-- server's status reasons, which `k8serrors.IsNotFound` and its like test.
pub data Err : Type 0 where
  not_found forbidden invalid conflict : Err
  -- a nil pointer dereference, which ends the call
  panic : Err
  -- any other error of a call that leaves the program
  external : ℕ → Err
  -- `errors.New`, or `fmt.Errorf` with no error in it: the text that leads the message
  message : List ℕ → Err
  -- `fmt.Errorf` around an error
  wrapped : List ℕ → Err → Err

pub data Result {ℓ} (A : Type ℓ) : Type ℓ where
  ok : A → Result A
  err : Err → Result A

-- `if err != nil { return fmt.Errorf("text: %v", err) }`
abbrev pub wrap {ℓ} : {A : Type ℓ} → List ℕ → Result A → Result A
wrap t (ok a) = ok a
wrap t (err e) = err (wrapped t e)

-- The test `err == nil`.
abbrev pub is_ok {ℓ} : {A : Type ℓ} → Result A → Bool
is_ok (ok a) = true
is_ok (err e) = false

-- `v, _ := f()` where `f` returns `d` beside its error.
abbrev pub ok_or {ℓ} : {A : Type ℓ} → A → Result A → A
ok_or d (ok a) = a
ok_or d (err e) = d

pub wrap-eq-ok {ℓ} : {A : Type ℓ} (t : List ℕ) (m : Result A) {a : A} → wrap t m ≡ ok a → m ≡ ok a
wrap-eq-ok t (ok a) h = h
wrap-eq-ok t (err e) h = cc

-- `x, err := first(); if err != nil { return err }; return next(x)`
infixl 5 ◌>>=◌
abbrev pub ◌>>=◌ {κ ℓ} : {S : Type κ} {T : Type ℓ} → Result S → (S → Result T) → Result T
err e >>= next = err e
ok x >>= next = next x

-- What ran where a block returned without an error.
pub >>=-eq-ok {κ ℓ} :
    {S : Type κ} {T : Type ℓ} (first : Result S) (next : S → Result T) {y : T}
    → (first >>= next) ≡ ok y
    → (x : S) × (first ≡ ok x) × (next x ≡ ok y)
>>=-eq-ok (err e) next h = cc
>>=-eq-ok (ok x) next h = (x, refl, h)

-- A block goes well exactly where its first part does and the rest does.
pub is_ok->>= {κ ℓ} :
    {S : Type κ} {T : Type ℓ} (first : Result S) (next : S → Result T) (b : Bool)
    → ((x : S) → first ≡ ok x → is_ok (next x) ≡ b)
    → is_ok (first >>= next) ≡ (is_ok first && b)
is_ok->>= (err e) next b h = refl
is_ok->>= (ok x) next b h = h x refl
