-- ===== src/Tests/Errors.antt =====
-- Witnesses for the theorems about the errors and the interceptors.
use mathlib.Core.Option
use be_auction_lot.Prelude.{String, Bool, true, false, none, some, [], ◌∷◌, ◌≡◌, refl, ◌⊎◌, List}
use be_auction_lot.Prelude.GoMap.{lookup}
use be_auction_lot.AppError.{
  GoError, nil, wrapped, pg_error, validation_error, status_error, bad_request, invalid_argument,
}
use be_auction_lot.AppError.Client.{empty_message, generate_client_fields, create_client_err}
use be_auction_lot.AppError.Laws.{client_errors, summary, generate_client_fields-eq-summary}
use be_auction_lot.AppError.Told.{merged, create_client_err-eq}
use be_auction_lot.Database.{
  as_type, database_constraint, derive_if_storage_error_message, pg_constraint, violations,
  StorageField,
}
use be_auction_lot.Database.Laws.{nodes, first_some, derive_if_storage_error_message-eq}
use be_auction_lot.ImageStore.Failures.{storage_failure}
use be_auction_lot.ImageStore.Failures.Laws.{refused_status, storage_failure-refused}
use be_auction_lot.Server.{served}
use be_auction_lot.Server.Laws.{Ends, served_outcome}
use be_auction_lot.Valid.{is_nil, to_grpc_error, error_response_interceptor, validate, Reply}
use be_auction_lot.Valid.Laws.{
  described, to_grpc_error-described, HasStatus, error_response_interceptor_outcome,
  validate_refused,
}
use be_auction_lot.Tests.World.{two_client_errors, appending, no_status, field_errors}

generate_client_fields-eq-summary_example :
    generate_client_fields two_client_errors empty_message
    ≡ summary (client_errors two_client_errors) empty_message
generate_client_fields-eq-summary_example =
    generate_client_fields-eq-summary two_client_errors empty_message

create_client_err-eq_example :
    create_client_err two_client_errors ≡ merged (client_errors two_client_errors)
create_client_err-eq_example = create_client_err-eq two_client_errors

abbrev no_such_lot : GoError
no_such_lot = wrapped "insert: " (pg_error "lot_images_lot_id_fkey") ""

derive_if_storage_error_message-eq_example :
    derive_if_storage_error_message no_such_lot
    ≡ Option.bind
        (first_some pg_constraint (nodes no_such_lot))
        (λ name. lookup name database_constraint)
derive_if_storage_error_message-eq_example = derive_if_storage_error_message-eq no_such_lot

to_grpc_error-described_example :
    to_grpc_error appending no_status two_client_errors
    ≡ status_error (described (client_errors two_client_errors))
unfolding as_type
to_grpc_error-described_example =
    to_grpc_error-described appending (λ s d. refl) no_status two_client_errors refl refl refl refl

-- A handler that counts its runs and fails.
abbrev failing : String → Bool → Reply String × Bool
failing req w = ((some "partial", two_client_errors), true)

error_response_interceptor_outcome_example :
    let x = error_response_interceptor appending no_status failing "request" false in
    (x.1 ≡ true)
    × (((is_nil two_client_errors ≡ true) × (x.0 ≡ (some "partial", nil)))
        ⊎ ((is_nil two_client_errors ≡ false) × (x.0.0 ≡ none) × HasStatus no_status x.0.1))
error_response_interceptor_outcome_example =
    error_response_interceptor_outcome appending no_status failing "request" false

abbrev refusing : String → GoError
refusing _ = validation_error field_errors

finds_violations : first_some violations (nodes (refusing "request")) ≡ some field_errors
unfolding first_some nodes
finds_violations = refl

validate_refused_example : validate appending (λ s. some s) refusing failing "request" false ≡ (
  (
    none,
    status_error (record {
      code = invalid_argument;
      message = "invalid request";
      details = bad_request field_errors ∷ [];
    }),
  ),
  false,
)
validate_refused_example =
    validate_refused appending (λ s d. refl) (λ s. some s) refusing failing "request" false
      "request" field_errors refl finds_violations

served_outcome_example :
    Ends appending no_status
      (λ s. some s)
      (λ _. nil)
      failing
      "request"
      false
      (served appending no_status (λ s. some s) (λ _. nil) failing "request" false)
served_outcome_example =
    served_outcome appending no_status (λ s. some s) (λ _. nil) failing "request" false

-- The explanation of the foreign key of lot_images.
abbrev no_lot_told : List StorageField
no_lot_told = record { subject = "Storage"; description = "lot with given id does not exist" } ∷ []

explains_no_lot :
    derive_if_storage_error_message (pg_error "lot_images_lot_id_fkey") ≡ some no_lot_told
unfolding derive_if_storage_error_message as_type
explains_no_lot = refl

storage_failure-refused_example :
    to_grpc_error appending no_status
      (storage_failure "op" "insert failed:" "storage error" (pg_error "lot_images_lot_id_fkey"))
    ≡ status_error (refused_status "storage error" no_lot_told)
storage_failure-refused_example =
    storage_failure-refused appending (λ s d. refl) no_status "op" "insert failed:" "storage error"
      "lot_images_lot_id_fkey" no_lot_told explains_no_lot refl
