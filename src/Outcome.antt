-- ===== src/Outcome.antt =====
-- What a Go call ends with: a value, an error, or a panic (a nil pointer read, a failed `Must`).
use be_auction_lot.Prelude.{Option, none, some, ◌≡◌}
use be_auction_lot.AppError.{GoError}

-- The error of `err` is not nil in a run of the program.
pub data Outcome {ℓ} (A : Type ℓ) : Type ℓ where
  ok : A → Outcome A
  err : GoError → Outcome A
  panic : Outcome A

infixl 5 ◌>>=◌ ◌>>◌
abbrev pub ◌>>=◌ {ℓ κ} : {A : Type ℓ} {B : Type κ} → Outcome A → (A → Outcome B) → Outcome B
ok a >>= f = f a
err e >>= f = err e
panic >>= f = panic

abbrev pub ◌>>◌ {ℓ κ} : {A : Type ℓ} {B : Type κ} → Outcome A → Outcome B → Outcome B
m >> k = m >>= λ _. k

-- `*p`
abbrev pub deref {ℓ} : {A : Type ℓ} → Option A → Outcome A
deref none = panic
deref (some a) = ok a

-- `if err != nil { return …, f(err) }`
abbrev pub map_err {ℓ} : {A : Type ℓ} → (GoError → GoError) → Outcome A → Outcome A
map_err f (ok a) = ok a
map_err f (err e) = err (f e)
map_err f panic = panic

pub ok-injective {ℓ} : {A : Type ℓ} (a b : A) → ok a ≡ ok b → a ≡ b
ok-injective a b e = cc
