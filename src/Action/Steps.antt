-- ===== src/Action/Steps.antt =====
-- One step of an action: forwards from the outcome of its first part, and backwards from success.
use be_auction_lot.Prelude.{◌≡◌, refl, ap}
use be_auction_lot.AppError.{GoError}
use be_auction_lot.Outcome
use be_auction_lot.Outcome.{Outcome, ok, err, panic}
use be_auction_lot.Action.{Action, continue_with, ◌>>=◌, or_fail}

module _ {S A B : Type 0} where
  pub step-ok :
      (m : Action S A) (f : A → Action S B) (s : S) (a : A)
      → (m s).0 ≡ ok a
      → (m >>= f) s ≡ f a (m s).1
  step-ok m f s a e = ap (λ r. continue_with f r (m s).1) e

  pub step-err :
      (m : Action S A) (f : A → Action S B) (s : S) (x : GoError)
      → (m s).0 ≡ err x
      → (m >>= f) s ≡ (err x, (m s).1)
  step-err m f s x e = ap (λ r. continue_with f r (m s).1) e

  pub step-panic :
      (m : Action S A) (f : A → Action S B) (s : S)
      → (m s).0 ≡ panic
      → (m >>= f) s ≡ (panic, (m s).1)
  step-panic m f s e = ap (λ r. continue_with f r (m s).1) e

  continue_with-eq-ok :
      (f : A → Action S B) (r : Outcome A) (s : S) (b : B)
      → (continue_with f r s).0 ≡ ok b
      → (a : A) × (r ≡ ok a) × ((f a s).0 ≡ ok b)
  continue_with-eq-ok f (ok a) s b e = (a, refl, e)
  continue_with-eq-ok f (err x) s b e = cc
  continue_with-eq-ok f panic s b e = cc

  -- Inversion of a successful bind.
  pub >>=-eq-ok :
      (m : Action S A) (f : A → Action S B) (s : S) (b : B)
      → ((m >>= f) s).0 ≡ ok b
      → (a : A) × ((m s).0 ≡ ok a) × ((f a (m s).1).0 ≡ ok b)
  >>=-eq-ok m f s b e = continue_with-eq-ok f (m s).0 (m s).1 b e

map_err-eq-ok :
    {A : Type 0} (g : GoError → GoError) (r : Outcome A) (a : A)
    → Outcome.map_err g r ≡ ok a
    → r ≡ ok a
map_err-eq-ok g (ok b) a e = e
map_err-eq-ok g (err x) a e = cc
map_err-eq-ok g panic a e = cc

module _ {S A : Type 0} where
  pub or_fail-ok :
      (m : Action S A) (g : GoError → GoError) (s : S) (a : A)
      → (m s).0 ≡ ok a
      → (or_fail m g s).0 ≡ ok a
  or_fail-ok m g s a e = ap (Outcome.map_err g) e

  pub or_fail-eq-ok :
      (m : Action S A) (g : GoError → GoError) (s : S) (a : A)
      → (or_fail m g s).0 ≡ ok a
      → (m s).0 ≡ ok a
  or_fail-eq-ok m g s a e = map_err-eq-ok g (m s).0 a e
