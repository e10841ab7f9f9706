-- ===== src/ImageStore/Failures.antt =====
-- The errors that internal/imagestore returns, as its handlers build them.
pub mod Laws
use be_auction_lot.Prelude.{String, List, [], ◌∷◌, none, some}
use be_auction_lot.AppError.{
  GoError, app, wrapped, FieldError, mark_as_client_err, internal_server_error,
  precondition_failed_error,
}
use be_auction_lot.Database.{StorageField, derive_if_storage_error_message}

-- `convertToFieldErr` of typetranslate.go
unfoldable pub convert_to_field_err : List StorageField → List FieldError
convert_to_field_err [] = []
convert_to_field_err (d ∷ ds) =
    record { field = d.subject; description = d.description } ∷ convert_to_field_err ds

-- `apperror.InternalServerError(operation, fmt.Errorf(prefix + "%w", err), message).MarkAsClientErr()`
unfoldable pub internal_failure : String → String → String → GoError → GoError
unfolding mark_as_client_err internal_server_error
internal_failure operation prefix message err =
    app (mark_as_client_err (internal_server_error operation (wrapped prefix err "") message))

-- The handler of a failed insert: a database error with a message for the client is a failed
-- precondition, any other is internal.
unfoldable pub storage_failure : String → String → String → GoError → GoError
unfolding internal_failure mark_as_client_err precondition_failed_error
storage_failure operation prefix message err = elim (derive_if_storage_error_message err) [
  | none ↦ internal_failure operation prefix "internal error" err
  | some err_fields ↦ app (
      mark_as_client_err (
        precondition_failed_error operation
          (record { fields = convert_to_field_err err_fields; message = message }) err))
]
