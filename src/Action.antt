-- ===== src/Action.antt =====
-- Code that runs on a state and ends with an outcome. The state survives errors and panics.
pub mod Ensures
pub mod Steps
pub mod Rounds
pub mod Succeeds
use be_auction_lot.Prelude.{List, [], ◌∷◌}
use be_auction_lot.AppError.{GoError}
use be_auction_lot.Outcome.{Outcome, ok, err, panic}
use be_auction_lot.Outcome

abbrev pub Action : Type 0 → Type 0 → Type 0
Action S A = S → Outcome A × S

abbrev pub continue_with : {S A B : Type 0} → (A → Action S B) → Outcome A → S → Outcome B × S
continue_with f (ok a) s = f a s
continue_with f (err e) s = (err e, s)
continue_with f panic s = (panic, s)

infixl 5 ◌>>=◌ ◌>>◌
abbrev pub ◌>>=◌ : {S A B : Type 0} → Action S A → (A → Action S B) → Action S B
◌>>=◌ m f s = let (r, s') = m s in continue_with f r s'

abbrev pub ◌>>◌ : {S A B : Type 0} → Action S A → Action S B → Action S B
m >> k = m >>= λ _. k

abbrev pub lift : {S A : Type 0} → Outcome A → Action S A
lift r s = (r, s)

abbrev pub return : {S A : Type 0} → A → Action S A
return a s = (ok a, s)

-- `if err != nil { return …, f(err) }`
abbrev pub or_fail : {S A : Type 0} → Action S A → (GoError → GoError) → Action S A
or_fail m f s = let (r, s') = m s in (Outcome.map_err f r, s')

-- A loop that appends the result of each round and stops at the first failure.
unfoldable pub for_each : {S A B : Type 0} → (A → Action S B) → List A → Action S (List B)
for_each f [] = return []
for_each f (x ∷ xs) = do y ← f x; ys ← for_each f xs; return (y ∷ ys)
