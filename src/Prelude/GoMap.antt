-- ===== src/Prelude/GoMap.antt =====
-- Go's `map[string]V` as a list of entries. Reading a missing key gives the zero value in the
-- source, so the callers say which value that is.
use Prim.Native.String.{String}
use mathlib.Core.Path.{◌≡◌, refl}
use mathlib.Core.Bool.{Bool, true, false}
use mathlib.Core.Option.{Option, none, some}
use mathlib.Core.List.{List, [], ◌∷◌}
use native.Mathlib.Omega.{arith}
use text.Mathlib.TextEquality.{eq_iff}
use be_auction_lot.Prelude.Tests.{str_eq, if◌then◌else◌}

abbrev pub GoMap {ℓ} : Type ℓ → Type ℓ
GoMap V = List (String × V)

module _ {ℓ} {V : Type ℓ} where
  -- `v, ok := m[key]`
  unfoldable pub lookup : String → GoMap V → Option V
  lookup key [] = none
  lookup key ((held, value) ∷ rest) = if str_eq held key then some value else lookup key rest

  -- `m[key] = value`
  unfoldable pub insert : String → V → GoMap V → GoMap V
  insert key value [] = (key, value) ∷ []
  insert key value ((held, old) ∷ rest) =
      let kept = (held, old) ∷ insert key value rest in
      if str_eq held key then (key, value) ∷ rest else kept

  -- `m[key]`, with the zero value of the type
  abbrev pub get_or : V → String → GoMap V → V
  get_or zero_value key m = elim (lookup key m) [ none ↦ zero_value | some value ↦ value ]

  abbrev pub has_key : String → GoMap V → Bool
  has_key key m = elim (lookup key m) [ none ↦ false | some _ ↦ true ]

  -- An assignment is seen under its key, and nowhere else.
  pub lookup-insert :
      (key asked : String) (value : V) (m : GoMap V)
      → lookup asked (insert key value m)
        ≡ (if str_eq key asked then some value else lookup asked m)
  unfolding lookup insert
  lookup-insert key asked value [] = refl
  lookup-insert key asked value ((held, old) ∷ rest) =
      let later = lookup-insert key asked value rest in
      ground (arith, later, eq_iff held asked, eq_iff key asked, eq_iff held key)
