-- ===== src/ImageStore/Failures/Laws.antt =====
-- What a client is told of an insert that Postgres refuses: database.go, apperror.go and
-- interceptor.go together.
use be_auction_lot.Prelude.{
  String, Bool, false, some, List, [], ◌∷◌, map, ◌≡◌, refl, ap, sym, subst, ◌∙◌,
}
use be_auction_lot.AppError.{
  GoError, app, pg_error, mark_as_client_err, precondition_failed_error, AppError, FieldError,
  message, fields, code_storage_conflict, failed_precondition, Status, precondition_failure,
  status_error,
}
use be_auction_lot.AppError.Client.{accumulate}
use be_auction_lot.AppError.Laws.{client_errors, tell, nil-join_messages}
use be_auction_lot.AppError.Told.{told_of, tell-told_of}
use be_auction_lot.Database.{StorageField, derive_if_storage_error_message, as_type}
use be_auction_lot.Valid.{WithDetails, to_grpc_error}
use be_auction_lot.Valid.Laws.{Attaches, coded_status, described, to_grpc_error-described}
use be_auction_lot.ImageStore.Failures.{storage_failure, convert_to_field_err}

-- The violation for a field of an explanation.
abbrev pub violation : StorageField → FieldError
violation d = record { field = d.subject; description = d.description }

convert_to_field_err-map :
    (told : List StorageField) → convert_to_field_err told ≡ map violation told
unfolding convert_to_field_err
convert_to_field_err-map [] = refl
convert_to_field_err-map (d ∷ ds) = ap (λ l. violation d ∷ l) (convert_to_field_err-map ds)

-- The status of a refused insert.
abbrev pub refused_status : String → List StorageField → Status
refused_status message told = record {
  code = failed_precondition;
  message = message;
  details = precondition_failure (map violation told) ∷ [];
}

abbrev precondition : String → String → List StorageField → GoError → AppError
precondition operation message told err = mark_as_client_err (
    precondition_failed_error operation
      (record { fields = convert_to_field_err told; message = message }) err)

-- What one error tells.
told_of-one : (e : AppError) → told_of (e ∷ []) ≡ record { message = message e; fields = fields e }
unfolding tell accumulate
told_of-one e = sym (tell-told_of (e ∷ [])) ∙ λ i. record {
  message = nil-join_messages (message e) i;
  fields = fields e;
}

-- The status of one client error.
precondition-described :
    (operation message : String) (told : List StorageField) (err : GoError)
    → described (client_errors (app (precondition operation message told err)))
      ≡ refused_status message told
unfolding mark_as_client_err precondition_failed_error client_errors
precondition-described operation message told err =
    ap (coded_status code_storage_conflict) (told_of-one (precondition operation message told err))
    ∙ ap
        (λ fs. record {
          code = failed_precondition;
          message = message;
          details = precondition_failure fs ∷ [];
        })
        (convert_to_field_err-map told)

-- An insert that Postgres refuses by a constraint that has an explanation reaches the client as
-- `FailedPrecondition`, with the message of the handler and one violation for each field of the
-- explanation, in order, with its subject and its description. Attaching details must not fail, and the error must not be a status already.
pub storage_failure-refused :
    (with_details : WithDetails)
    → Attaches with_details
    → (is_status : GoError → Bool) (operation prefix message constraint : String)
      (told : List StorageField)
    → derive_if_storage_error_message (pg_error constraint) ≡ some told
    → is_status (storage_failure operation prefix message (pg_error constraint)) ≡ false
    → to_grpc_error with_details is_status
        (storage_failure operation prefix message (pg_error constraint))
      ≡ status_error (refused_status message told)
unfolding storage_failure mark_as_client_err precondition_failed_error as_type
storage_failure-refused with_details attaches is_status operation prefix message constraint told
      known no_status =
    let failure = precondition operation message told (pg_error constraint) in
    let same : storage_failure operation prefix message (pg_error constraint) ≡ app failure =
      rw (known, storage_failure) refl in
    rw same (
      to_grpc_error-described with_details attaches is_status (app failure) refl
        (subst (λ e. is_status e ≡ false) same no_status) refl refl
      ∙ ap status_error (precondition-described operation message told (pg_error constraint)))
