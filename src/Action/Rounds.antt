-- ===== src/Action/Rounds.antt =====
-- Runs of actions that end well, taken apart with their states; a loop is a list of rounds.
use be_auction_lot.Prelude.{List, [], ◌∷◌, ◌≡◌, refl, ap, ap₂, subst}
use be_auction_lot.Outcome.{Outcome, ok, err, panic, ok-injective}
use be_auction_lot.Action.{Action, continue_with, ◌>>=◌, for_each}

-- Round after round from one state to another, an input and a result each.
abbrev pub Rounds : {S A B : Type 0} → (S → A → B → S → Type 0) → S → List A → List B → S → Type 0
Rounds R s [] [] t = s ≡ t
Rounds {S = S} R s (x ∷ xs) (y ∷ ys) t = (s' : S) × R s x y s' × Rounds R s' xs ys t
Rounds R s _ _ t = ⊥

module _ {S : Type 0} where
  continue_with-run :
      {A B : Type 0} (f : A → Action S B) (r : Outcome A) (s : S) (b : B) (t : S)
      → continue_with f r s ≡ (ok b, t)
      → (a : A) × (r ≡ ok a) × (f a s ≡ (ok b, t))
  continue_with-run f (ok a) s b t e = (a, refl, e)
  continue_with-run f (err x) s b t e = cc
  continue_with-run f panic s b t e = cc

  pub >>=-run :
      {A B : Type 0} (m : Action S A) (f : A → Action S B) (s : S) (b : B) (t : S)
      → (m >>= f) s ≡ (ok b, t)
      → (a : A) × ((m s).0 ≡ ok a) × (f a (m s).1 ≡ (ok b, t))
  >>=-run m f s b t e = continue_with-run f (m s).0 (m s).1 b t e

  abbrev pub Runs : {A B : Type 0} → (A → Action S B) → S → A → B → S → Type 0
  Runs f s x y s' = f x s ≡ (ok y, s')

  pub for_each-Rounds :
      {A B : Type 0} (f : A → Action S B) (xs : List A) (s : S) (ys : List B) (t : S)
      → for_each f xs s ≡ (ok ys, t)
      → Rounds (Runs f) s xs ys t
  unfolding for_each
  for_each-Rounds f [] s ys t e =
      subst (λ l. Rounds (Runs f) s [] l t) (ok-injective [] ys (ap (λ p. p.0) e)) (ap (λ p. p.1) e)
  for_each-Rounds f (x ∷ xs) s ys t e =
      let (y, e₁, k) = >>=-run (f x) _ s ys t e in
      let (zs, e₂, k') = >>=-run (for_each f xs) _ (f x s).1 ys t k in
      let s' = (f x s).1 in
      subst (λ l. Rounds (Runs f) s (x ∷ xs) l t) (ok-injective (y ∷ zs) ys (ap (λ p. p.0) k'))
        (
          s',
          ap (λ r. (r, s')) e₁,
          for_each-Rounds f xs s' zs t (ap₂ (λ r u. (r, u)) e₂ (ap (λ p. p.1) k')),
        )
