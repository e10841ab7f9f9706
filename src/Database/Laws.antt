-- ===== src/Database/Laws.antt =====
-- The walk of `errors.As` against the list of the errors of a tree, and what it finds.
use be_auction_lot.Prelude.{
  String, Option, none, some, List, [], ◌∷◌, ◌++◌, ◌≡◌, refl, ◌∙◌, ap, sym,
}
use mathlib.Core.Option
use be_auction_lot.Prelude.GoMap.{lookup}
use be_auction_lot.AppError.{
  GoError, app, wrapped, joined, AppError, app_error, GoErrors, no_errors, more_errors,
}
use be_auction_lot.Database.{
  as_type, as_type_app, as_type_any, or_else, pg_constraint, StorageField,
  derive_if_storage_error_message, database_constraint,
}

-- Every error of the tree, an error before those that it wraps.
unfoldable mutual
  pub nodes : GoError → List GoError
  nodes (app e) = app e ∷ nodes_app e
  nodes (wrapped p e s) = wrapped p e s ∷ nodes e
  nodes (joined es) = joined es ∷ nodes_any es
  nodes e = e ∷ []

  nodes_app : AppError → List GoError
  nodes_app (app_error _ _ _ _ err _ _) = nodes err

  nodes_any : GoErrors → List GoError
  nodes_any no_errors = []
  nodes_any (more_errors e es) = nodes e ++ nodes_any es

module _ {A : Type 0} (probe : GoError → Option A) where
  unfoldable pub first_some : List GoError → Option A
  first_some [] = none
  first_some (e ∷ es) = or_else (probe e) (first_some es)

  or_else_assoc : (a b c : Option A) → or_else (or_else a b) c ≡ or_else a (or_else b c)
  or_else_assoc none b c = refl
  or_else_assoc (some a) b c = refl

  or_else-none : (a : Option A) → or_else a none ≡ a
  or_else-none none = refl
  or_else-none (some a) = refl

  first_some-append :
      (es fs : List GoError) → first_some (es ++ fs) ≡ or_else (first_some es) (first_some fs)
  unfolding first_some
  first_some-append [] fs = refl
  first_some-append (e ∷ es) fs =
      ap (or_else (probe e)) (first_some-append es fs)
      ∙ sym (or_else_assoc (probe e) (first_some es) (first_some fs))

  mutual
    unfolding as_type nodes first_some

    as_type-eq : (e : GoError) → as_type probe e ≡ first_some (nodes e)
    as_type-eq (app e) = ap (or_else (probe (app e))) (as_type_app-eq e)
    as_type-eq (wrapped p e s) = ap (or_else (probe (wrapped p e s))) (as_type-eq e)
    as_type-eq (joined es) = ap (or_else (probe (joined es))) (as_type_any-eq es)
    as_type-eq e = sym (or_else-none (probe e))

    as_type_app-eq : (e : AppError) → as_type_app probe e ≡ first_some (nodes_app e)
    as_type_app-eq (app_error _ _ _ _ err _ _) = as_type-eq err

    as_type_any-eq : (es : GoErrors) → as_type_any probe es ≡ first_some (nodes_any es)
    as_type_any-eq no_errors = refl
    as_type_any-eq (more_errors e es) =
        rw (as_type-eq e, as_type_any-eq es) (sym (first_some-append (nodes e) (nodes_any es)))

  pub as_type-eq-first_some : (e : GoError) → as_type probe e ≡ first_some (nodes e)
  as_type-eq-first_some e = as_type-eq e

bind-elim :
    (o : Option String) (f : String → Option (List StorageField))
    → (elim o [ none ↦ none | some name ↦ f name ]) ≡ Option.bind o f
unfolding Option.bind
bind-elim none f = refl
bind-elim (some name) f = refl

-- A database error is explained to the client exactly by the constraint of the first database
-- error of the tree, in the order in which package errors unwraps; an unknown constraint, or no
-- database error, has no explanation.
pub derive_if_storage_error_message-eq :
    (e : GoError)
    → derive_if_storage_error_message e
      ≡ Option.bind (first_some pg_constraint (nodes e)) (λ name. lookup name database_constraint)
unfolding derive_if_storage_error_message
derive_if_storage_error_message-eq e =
    rw (← as_type-eq-first_some pg_constraint e)
      (bind-elim (as_type pg_constraint e) (λ name. lookup name database_constraint))
