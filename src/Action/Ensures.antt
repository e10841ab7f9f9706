-- ===== src/Action/Ensures.antt =====
-- Postconditions of actions: a property of the value that an action ends with, if it ends with one,
-- from any state; and the rules by which they compose.
use be_auction_lot.Prelude.{List, [], ◌∷◌, ◌≡◌, refl, map, ap₂, subst}
use be_auction_lot.AppError.{GoError}
use be_auction_lot.Outcome
use be_auction_lot.Outcome.{Outcome, ok, err, panic}
use be_auction_lot.Action.{Action, continue_with, ◌>>=◌, lift, return, or_fail, for_each}

pub data Yields {A : Type 0} (P : A → Type 0) : Outcome A → Type 0 where
  good : (a : A) → P a → Yields P (ok a)
  failed : (e : GoError) → Yields P (err e)
  panicked : Yields P panic

Yields_holds : {A : Type 0} (P : A → Type 0) (r : Outcome A) (a : A) → Yields P r → r ≡ ok a → P a
Yields_holds P (ok b) a (good _ p) e = subst P (cc) p
Yields_holds P (err e') a (failed _) e = cc
Yields_holds P panic a panicked e = cc

abbrev pub Ensures : {S A : Type 0} → (A → Type 0) → Action S A → Type 0
Ensures {S = S} P m = (s : S) → Yields P (m s).0

Yields-map_err :
    {A : Type 0} (P : A → Type 0) (g : GoError → GoError) (r : Outcome A)
    → Yields P r
    → Yields P (Outcome.map_err g r)
Yields-map_err P g (ok a) (good _ p) = good a p
Yields-map_err P g (err e) (failed _) = failed (g e)
Yields-map_err P g panic panicked = panicked

-- A loop relates each element with its result.
abbrev pub Each : {A B : Type 0} → (A → B → Type 0) → List A → List B → Type 0
Each R [] [] = Unit
Each R (x ∷ xs) (y ∷ ys) = R x y × Each R xs ys
Each R _ _ = ⊥

module _ {S : Type 0} where
  pub Ensures-holds :
      {A : Type 0} (P : A → Type 0) (m : Action S A)
      → Ensures P m
      → (s : S) (a : A) → (m s).0 ≡ ok a
      → P a
  Ensures-holds P m h s a e = Yields_holds P _ a (h s) e

  pub Ensures-return : {A : Type 0} (P : A → Type 0) (a : A) → P a → Ensures {S = S} P (return a)
  Ensures-return P a p s = good a p

  pub Ensures-lift :
      {A : Type 0} (P : A → Type 0) (r : Outcome A)
      → ((a : A) → r ≡ ok a → P a)
      → Ensures {S = S} P (lift r)
  Ensures-lift P (ok a) h s = good a (h a refl)
  Ensures-lift P (err e) h s = failed e
  Ensures-lift P panic h s = panicked

  pub Ensures-any : {A : Type 0} (m : Action S A) → Ensures (λ _. Unit {0}) m
  Ensures-any m s = any (m s).0
    where
      any : {A : Type 0} (r : Outcome A) → Yields (λ _. Unit {0}) r
      any (ok a) = good a tt
      any (err e) = failed e
      any panic = panicked

  Yields-continue_with :
      {A B : Type 0} (P : A → Type 0) (Q : B → Type 0) (f : A → Action S B)
      → ((a : A) → P a → Ensures Q (f a))
      → (r : Outcome A) (s : S) → Yields P r
      → Yields Q (continue_with f r s).0
  Yields-continue_with P Q f k (ok a) s (good _ p) = k a p s
  Yields-continue_with P Q f k (err e) s (failed _) = failed e
  Yields-continue_with P Q f k panic s panicked = panicked

  pub Ensures->>= :
      {A B : Type 0} (P : A → Type 0) (Q : B → Type 0) (m : Action S A) (f : A → Action S B)
      → Ensures P m
      → ((a : A) → P a → Ensures Q (f a))
      → Ensures Q (m >>= f)
  Ensures->>= P Q m f h k s = Yields-continue_with P Q f k (m s).0 (m s).1 (h s)

  pub Ensures-or_fail :
      {A : Type 0} (P : A → Type 0) (m : Action S A) (g : GoError → GoError)
      → Ensures P m
      → Ensures P (or_fail m g)
  Ensures-or_fail P m g h s = Yields-map_err P g (m s).0 (h s)

  pub Ensures-for_each :
      {A B : Type 0} (R : A → B → Type 0) (f : A → Action S B)
      → ((x : A) → Ensures (R x) (f x))
      → (xs : List A) → Ensures (Each R xs) (for_each f xs)
  unfolding for_each
  Ensures-for_each R f h [] = Ensures-return (Each R []) [] tt
  Ensures-for_each R f h (x ∷ xs) = Ensures->>= (R x) (Each R (x ∷ xs)) (f x) _ (h x) λ y r.
      Ensures->>= (Each R xs) (Each R (x ∷ xs)) (for_each f xs) _ (Ensures-for_each R f h xs)
        λ ys rs. Ensures-return (Each R (x ∷ xs)) (y ∷ ys) (r, rs)

pub Each-map :
    {A B C : Type 0} (g : B → C) (h : A → C) (xs : List A) (ys : List B)
    → Each (λ x y. g y ≡ h x) xs ys
    → map g ys ≡ map h xs
Each-map g h [] [] r = refl
Each-map g h [] (y ∷ ys) r = absurd r
Each-map g h (x ∷ xs) [] r = absurd r
Each-map g h (x ∷ xs) (y ∷ ys) (r, rs) = ap₂ ◌∷◌ r (Each-map g h xs ys rs)
