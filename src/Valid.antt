-- ===== src/Valid.antt =====
-- internal/valid/interceptor.go: request validation, and the translation of errors to grpc statuses.
-- Package grpc and protovalidate are not read: `is_status` is the `ok` of `status.FromError`,
-- `with_details` is `(*Status).WithDetails` (`none` for an error), and `validate` is the validator's
-- method. A handler runs on a state `W`; it returns a response, nil or not, and an error.
pub mod Laws
use be_auction_lot.Prelude.{
  Bool, true, false, Option, none, some, List, [], ◌∷◌, ◌++◌, if◌then◌else◌, map, String,
}
use be_auction_lot.AppError.{
  GoError, nil, app, status_error, AppError, FieldError, message, fields, code, ErrCode, unset,
  code_invalid_argument, code_storage_conflict, code_internal_server_error, code_unknown_error,
  code_not_found, GrpcCode, invalid_argument, failed_precondition, internal, unknown, not_found,
  deadline_exceeded, canceled, Details, bad_request, precondition_failure, Status,
  internal_server_error, catch_all_unknown_server_error,
}
use be_auction_lot.AppError.Client.{create_client_err}
use be_auction_lot.Database.{as_type, violations, errors_is, is_deadline_exceeded, is_canceled}

abbrev pub WithDetails : Type 0
WithDetails = Status → Details → Option Status

-- `status.New(c, m)`
abbrev pub new_status : GrpcCode → String → Status
new_status c m = record { code = c; message = m; details = [] }

-- `status.Error(c, m)`
abbrev pub status_error_of : GrpcCode → String → GoError
status_error_of c m = status_error (new_status c m)

abbrev pub is_nil : GoError → Bool
is_nil nil = true
is_nil _ = false

-- What a handler returns.
abbrev pub Reply : Type 0 → Type 0
Reply Resp = Option Resp × GoError

unfoldable pub code_internal_server_error_translation : AppError → GoError
code_internal_server_error_translation err = status_error_of internal (message err)

unfoldable pub code_unknown_err_translation : AppError → GoError
code_unknown_err_translation err = status_error_of unknown (message err)

unfoldable pub code_not_found_translation : AppError → GoError
code_not_found_translation err = status_error_of not_found (message err)

abbrev pub attached_or : String → Option Status → GoError
attached_or fallback none = status_error_of internal fallback
attached_or fallback (some st) = status_error st

module _ (with_details : WithDetails) where
  -- `st.Err()`, or the given message if the details could not be attached
  abbrev pub detailed : Status → Details → String → GoError
  detailed st d fallback = attached_or fallback (with_details st d)

  unfoldable pub code_invalid_argument_translation : AppError → GoError
  code_invalid_argument_translation err =
      detailed (new_status invalid_argument (message err)) (bad_request (fields err))
        "invalid request and internal error"

  unfoldable pub code_storage_conflict_translation : AppError → GoError
  code_storage_conflict_translation err =
      detailed (new_status failed_precondition (message err)) (precondition_failure (fields err))
        "precondition failed and internal error"

  -- The map `appErrToGRPCTranslation`
  unfoldable pub app_err_to_grpc_translation : ErrCode → Option (AppError → GoError)
  app_err_to_grpc_translation code_invalid_argument = some code_invalid_argument_translation
  app_err_to_grpc_translation code_storage_conflict = some code_storage_conflict_translation
  app_err_to_grpc_translation code_internal_server_error =
      some code_internal_server_error_translation
  app_err_to_grpc_translation code_unknown_error = some code_unknown_err_translation
  app_err_to_grpc_translation code_not_found = some code_not_found_translation
  app_err_to_grpc_translation unset = none

  unfoldable pub convert_to_grpc_err : AppError → GoError
  unfolding app_err_to_grpc_translation internal_server_error code_invalid_argument_translation
      code_storage_conflict_translation code_internal_server_error_translation
      code_unknown_err_translation code_not_found_translation
  convert_to_grpc_err err = elim (app_err_to_grpc_translation (code err)) [
    | none ↦
        code_internal_server_error_translation
          (internal_server_error "valid.convertToGRPCErr" (app err) "grpcTranslation code failed")
    | some translation_fn ↦ translation_fn err
  ]

abbrev pub or_unknown : GoError → Option AppError → AppError
or_unknown err none =
    catch_all_unknown_server_error "valid.prioritySearchErrorCode" err "unknown error"
or_unknown err (some result_err) = result_err

unfoldable pub create_err : GoError → AppError
unfolding catch_all_unknown_server_error
create_err err = or_unknown err (create_client_err err)

module _ (with_details : WithDetails) (is_status : GoError → Bool) where
  unfoldable pub to_grpc_error : GoError → GoError
  unfolding convert_to_grpc_err create_err
  to_grpc_error err =
      if is_nil err
      then nil
      else if is_status err
      then err
      else if errors_is is_deadline_exceeded err
      then status_error_of deadline_exceeded "deadline exceeded"
      else if errors_is is_canceled err
      then status_error_of canceled "request cancelled"
      else convert_to_grpc_err with_details (create_err err)

  module _ {W Req Resp : Type 0} (handler : Req → W → Reply Resp × W) where
    unfoldable pub error_response_interceptor : Req → W → Reply Resp × W
    error_response_interceptor req w =
        let ((response, err), w') = handler req w in
        if is_nil err then ((response, nil), w') else ((none, to_grpc_error err), w')

-- The answer to a message that the validator refuses with an error.
abbrev pub refuse_with : WithDetails → Option (List FieldError) → GoError
refuse_with with_details none = status_error_of internal "validation failed"
refuse_with with_details (some viols) =
    detailed with_details (new_status invalid_argument "invalid request") (bad_request viols)
      "invalid request and internal error"

unfoldable pub refuse : WithDetails → GoError → GoError
refuse with_details err = refuse_with with_details (as_type violations err)

module _ (with_details : WithDetails) {W Req Msg Resp : Type 0} (as_message : Req → Option Msg)
    (validator : Msg → GoError) (handler : Req → W → Reply Resp × W) where
  -- `as_message` is the assertion `req.(proto.Message)`.
  unfoldable pub validate : Req → W → Reply Resp × W
  validate req w = elim (as_message req) [
    | none ↦ ((none, status_error_of internal "unexpected request type"), w)
    | some msg ↦
        if is_nil (validator msg)
        then handler req w
        else ((none, refuse with_details (validator msg)), w)
  ]
