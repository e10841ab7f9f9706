-- ===== src/Database.antt =====
-- internal/database/database.go: which database errors have a message for the client. The walks of
-- package errors over an error tree are here too: `errors.As` and `errors.Is` try an error, then
-- what it unwraps to, in order.
pub mod Laws
use be_auction_lot.Prelude.{
  String, Bool, true, false, Option, none, some, List, [], ◌∷◌, Option-cases,
}
use be_auction_lot.Prelude.GoMap.{GoMap, lookup}
use be_auction_lot.AppError.{
  GoError, nil, app, wrapped, joined, pg_error, err_no_rows, err_deadline_exceeded, err_canceled,
  validation_error, plain, status_error, AppError, app_error, GoErrors, no_errors, more_errors,
  FieldError,
}

pub record StorageField : Type 0 where
  pub subject : String
  pub description : String

abbrev pub ForeignKeyViolationMessage : Type 0
ForeignKeyViolationMessage = GoMap (List StorageField)

abbrev storage : String → List StorageField
storage text = record { subject = "Storage"; description = text } ∷ []

pub database_constraint : ForeignKeyViolationMessage
database_constraint =
    ("image_blob_upload_attempts_lot_id_fkey", storage "lotId does not match")
    ∷ (
      "idx_unq_img_attmpts_sha256_lot_id_upload_state",
      storage
          "file with same sha256 hash and lotId whose upload has not been completed already exists",
    )
    ∷ ("lot_images_image_blob_id_fkey", storage "image blob with given id does not exist")
    ∷ ("lot_images_lot_id_fkey", storage "lot with given id does not exist")
    ∷ []

abbrev pub or_else {ℓ} : {A : Type ℓ} → Option A → Option A → Option A
or_else none b = b
or_else (some a) b = some a

-- `errors.As`: the first error of the tree that the probe recognises.
module _ {A : Type 0} (probe : GoError → Option A) where
  unfoldable mutual
    pub as_type : GoError → Option A
    as_type (app e) = or_else (probe (app e)) (as_type_app e)
    as_type (wrapped p e s) = or_else (probe (wrapped p e s)) (as_type e)
    as_type (joined es) = or_else (probe (joined es)) (as_type_any es)
    as_type e = probe e

    pub as_type_app : AppError → Option A
    as_type_app (app_error _ _ _ _ err _ _) = as_type err

    pub as_type_any : GoErrors → Option A
    as_type_any no_errors = none
    as_type_any (more_errors e es) = or_else (as_type e) (as_type_any es)

-- The probes: a type of error, with what the caller reads of it, or one error value.
abbrev pub pg_constraint : GoError → Option String
pg_constraint (pg_error constraint) = some constraint
pg_constraint _ = none

abbrev pub violations : GoError → Option (List FieldError)
violations (validation_error vs) = some vs
violations _ = none

abbrev pub is_deadline_exceeded : GoError → Option (Unit {0})
is_deadline_exceeded err_deadline_exceeded = some tt
is_deadline_exceeded _ = none

abbrev pub is_canceled : GoError → Option (Unit {0})
is_canceled err_canceled = some tt
is_canceled _ = none

abbrev pub is_no_rows : GoError → Option (Unit {0})
is_no_rows err_no_rows = some tt
is_no_rows _ = none

-- `errors.Is`, by the probe for one error value
abbrev pub errors_is : (GoError → Option (Unit {0})) → GoError → Bool
errors_is probe e = elim (as_type probe e) [ none ↦ false | some _ ↦ true ]

unfoldable pub get_error_message : ForeignKeyViolationMessage → String → Option (List StorageField)
unfolding lookup
get_error_message constraints name = lookup name constraints

unfoldable pub is_storage_error : GoError → Option String
unfolding as_type
is_storage_error err = as_type pg_constraint err

unfoldable pub derive_if_storage_error_message : GoError → Option (List StorageField)
unfolding is_storage_error get_error_message database_constraint
derive_if_storage_error_message err = elim (is_storage_error err) [
  | none ↦ none
  | some name ↦ get_error_message database_constraint name
]

unfoldable pub is_row_not_found : GoError → Bool
unfolding as_type
is_row_not_found err = errors_is is_no_rows err
