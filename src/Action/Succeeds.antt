-- ===== src/Action/Succeeds.antt =====
-- Actions that end well from every state, and how they compose.
use be_auction_lot.Prelude.{List, [], ◌∷◌, ◌≡◌, refl, ap, ◌∙◌, All}
use be_auction_lot.AppError.{GoError}
use be_auction_lot.Outcome.{Outcome, ok}
use be_auction_lot.Action.{Action, ◌>>=◌, return, lift, or_fail, for_each}
use be_auction_lot.Action.Steps.{step-ok, or_fail-ok}

module _ {S : Type 0} where
  abbrev pub Succeeds : {A : Type 0} → Action S A → Type 0
  Succeeds {A = A} m = (s : S) → (a : A) × ((m s).0 ≡ ok a)

  pub Succeeds-return : {A : Type 0} (a : A) → Succeeds (return a)
  Succeeds-return a s = (a, refl)

  pub Succeeds-lift : {A : Type 0} (r : Outcome A) (a : A) → r ≡ ok a → Succeeds (lift r)
  Succeeds-lift r a e s = (a, e)

  pub Succeeds-or_fail :
      {A : Type 0} (m : Action S A) (g : GoError → GoError) → Succeeds m → Succeeds (or_fail m g)
  Succeeds-or_fail m g h s = let (a, e) = h s in (a, or_fail-ok m g s a e)

  -- With a promise of the result.
  abbrev pub SucceedsWith : {A : Type 0} → (A → Type 0) → Action S A → Type 0
  SucceedsWith {A = A} P m = (s : S) → (a : A) × ((m s).0 ≡ ok a) × P a

  -- The rest of a sequence may count on what the first action promises of its result.
  pub Succeeds->>=_if :
      {A B : Type 0} (P : A → Type 0) (m : Action S A) (f : A → Action S B)
      → SucceedsWith P m
      → ((a : A) → P a → Succeeds (f a))
      → Succeeds (m >>= f)
  Succeeds->>=_if P m f h k s =
      let (a, e, p) = h s in
      let (b, e') = k a p (m s).1 in (b, ap (λ x. x.0) (step-ok m f s a e) ∙ e')

  pub SucceedsWith->>= :
      {A B : Type 0} (P : B → Type 0) (m : Action S A) (f : A → Action S B)
      → Succeeds m
      → ((a : A) → SucceedsWith P (f a))
      → SucceedsWith P (m >>= f)
  SucceedsWith->>= P m f h k s =
      let (a, e) = h s in
      let (b, e', p) = k a (m s).1 in (b, ap (λ x. x.0) (step-ok m f s a e) ∙ e', p)

  pub Succeeds->>= :
      {A B : Type 0} (m : Action S A) (f : A → Action S B)
      → Succeeds m
      → ((a : A) → Succeeds (f a))
      → Succeeds (m >>= f)
  Succeeds->>= m f h k s =
      let (a, e) = h s in let (b, e') = k a (m s).1 in (b, ap (λ x. x.0) (step-ok m f s a e) ∙ e')

  pub Succeeds-for_each :
      {A B : Type 0} (P : A → Type 0) (f : A → Action S B)
      → ((x : A) → P x → Succeeds (f x))
      → (xs : List A) → All P xs
      → Succeeds (for_each f xs)
  unfolding for_each
  Succeeds-for_each P f h [] t = Succeeds-return []
  Succeeds-for_each P f h (x ∷ xs) (p, ps) = Succeeds->>= (f x) _ (h x p) λ y.
      Succeeds->>= (for_each f xs) _ (Succeeds-for_each P f h xs ps) λ ys. Succeeds-return (y ∷ ys)
