-- ===== src/Valid/Laws.antt =====
-- The status that an error becomes, on every branch, and what the interceptors let through.
use mathlib.Core.Option.{none-ne-some}
use be_auction_lot.Prelude.{
  Bool, true, false, Option, none, some, List, [], ◌∷◌, ◌++◌, ◌≡◌, refl, String, Bool-cases, ◌⊎◌,
  inl, inr, ◌∙◌, ap,
}
use be_auction_lot.AppError.{
  GoError, nil, status_error, AppError, app_error, FieldError, code, plain, ErrCode, unset,
  code_invalid_argument, code_storage_conflict, code_internal_server_error, code_unknown_error,
  code_not_found, invalid_argument, failed_precondition, internal, unknown, not_found,
  deadline_exceeded, canceled, Details, bad_request, precondition_failure, Status,
}
use be_auction_lot.AppError.Client.{ErrorMessage, retell, create_client_err}
use be_auction_lot.AppError.Laws.{client_errors}
use be_auction_lot.AppError.Told.{told_of, merged, create_client_err-eq}
use be_auction_lot.Database.{as_type, violations, errors_is, is_deadline_exceeded, is_canceled}
use be_auction_lot.Database.Laws.{nodes, first_some, as_type-eq-first_some}
use be_auction_lot.Valid.{
  WithDetails, new_status, is_nil, Reply, attached_or, or_unknown, refuse, refuse_with, validate,
  to_grpc_error, convert_to_grpc_err, create_err, error_response_interceptor,
}

-- `WithDetails` appends the message, as it is documented to if no error occurs.
abbrev pub Attaches : WithDetails → Type 0
Attaches with_details =
    (s : Status) (d : Details)
    → with_details s d ≡ some (record s { details = s.details ++ (d ∷ []) })

-- The status for a code and what the client is told.
abbrev pub coded_status : ErrCode → ErrorMessage → Status
coded_status code_invalid_argument told = record {
  code = invalid_argument;
  message = told.message;
  details = bad_request told.fields ∷ [];
}
coded_status code_storage_conflict told = record {
  code = failed_precondition;
  message = told.message;
  details = precondition_failure told.fields ∷ [];
}
coded_status code_internal_server_error told = new_status internal told.message
coded_status code_unknown_error told = new_status unknown told.message
coded_status code_not_found told = new_status not_found told.message
coded_status unset told = new_status internal ""

-- The status for the client errors of a tree.
abbrev pub described : List AppError → Status
described [] = new_status unknown "unknown error"
described (e ∷ es) = coded_status (code e) (told_of (e ∷ es))

module _ (with_details : WithDetails) (attaches : Attaches with_details) where
  convert_to_grpc_err-coded :
      (told : ErrorMessage) (e : AppError)
      → convert_to_grpc_err with_details (retell told e) ≡ status_error (coded_status (code e) told)
  unfolding convert_to_grpc_err
  convert_to_grpc_err-coded told (app_error o code_invalid_argument m fs err g b) =
      ap (attached_or "invalid request and internal error")
        (attaches (new_status invalid_argument told.message) (bad_request told.fields))
  convert_to_grpc_err-coded told (app_error o code_storage_conflict m fs err g b) =
      ap (attached_or "precondition failed and internal error")
        (attaches (new_status failed_precondition told.message) (precondition_failure told.fields))
  convert_to_grpc_err-coded told (app_error o unset m fs err g b) = refl
  convert_to_grpc_err-coded told (app_error o _ m fs err g b) = refl

  create_err-described :
      (err : GoError) (es : List AppError)
      → create_client_err err ≡ merged es
      → convert_to_grpc_err with_details (create_err err) ≡ status_error (described es)
  unfolding create_err convert_to_grpc_err
  create_err-described err [] h = ap (λ c. convert_to_grpc_err with_details (or_unknown err c)) h
  create_err-described err (app_error o c msg fs inner merge client ∷ es) h =
      let first = app_error o c msg fs inner merge client in
      ap (λ c. convert_to_grpc_err with_details (or_unknown err c)) h
      ∙ convert_to_grpc_err-coded (told_of (first ∷ es)) first

  -- An error that is neither nil, nor a status already, nor a deadline or a cancellation becomes the
  -- status of its client errors, by the code of the first of them. With the unset code, which the
  -- constructor of internal errors leaves, it is `Internal` with the empty message; with any other
  -- it has all their messages that are not empty, in order with ";" between them, and, if the code
  -- is an invalid argument or a storage conflict, all their fields in order as its one detail.
  -- Without a client error it is `Unknown` with "unknown error". Attaching details must not fail.
  pub to_grpc_error-described :
      (is_status : GoError → Bool) (err : GoError)
      → is_nil err ≡ false
      → is_status err ≡ false
      → errors_is is_deadline_exceeded err ≡ false
      → errors_is is_canceled err ≡ false
      → to_grpc_error with_details is_status err ≡ status_error (described (client_errors err))
  unfolding to_grpc_error
  to_grpc_error-described is_status err not_nil no_status in_time going =
      rw (not_nil, no_status, in_time, going)
        (create_err-described err (client_errors err) (create_client_err-eq err))

-- An error that the client reads as a status: built as one, or recognised as one by package grpc.
abbrev pub HasStatus : (GoError → Bool) → GoError → Type 0
HasStatus is_status e = ((s : Status) × (e ≡ status_error s)) ⊎ (is_status e ≡ true)

attached_or-status :
    (fallback : String) (o : Option Status)
    → (s : Status) × (attached_or fallback o ≡ status_error s)
attached_or-status fallback none = (_, refl)
attached_or-status fallback (some st) = (st, refl)

convert_to_grpc_err-status :
    (with_details : WithDetails) (e : AppError)
    → (s : Status) × (convert_to_grpc_err with_details e ≡ status_error s)
unfolding convert_to_grpc_err
convert_to_grpc_err-status with_details (app_error o code_invalid_argument m fs err g b) =
    attached_or-status "invalid request and internal error" (with_details _ _)
convert_to_grpc_err-status with_details (app_error o code_storage_conflict m fs err g b) =
    attached_or-status "precondition failed and internal error" (with_details _ _)
convert_to_grpc_err-status with_details (app_error o unset m fs err g b) = (_, refl)
convert_to_grpc_err-status with_details (app_error o _ m fs err g b) = (_, refl)

to_grpc_error-HasStatus :
    (with_details : WithDetails) (is_status : GoError → Bool) (err : GoError)
    → is_nil err ≡ false
    → HasStatus is_status (to_grpc_error with_details is_status err)
unfolding to_grpc_error
to_grpc_error-HasStatus with_details is_status err not_nil = elim (Bool-cases (is_status err)) [
  | inl known ↦ inr (rw (not_nil, known) known)
  | inr other ↦ elim (Bool-cases (errors_is is_deadline_exceeded err)) [
    | inl late ↦
        inl (new_status deadline_exceeded "deadline exceeded", rw (not_nil, other, late) refl)
    | inr in_time ↦ elim (Bool-cases (errors_is is_canceled err)) [
      | inl gone ↦
          inl (new_status canceled "request cancelled", rw (not_nil, other, in_time, gone) refl)
      | inr going ↦ inl (
          rw (not_nil, other, in_time, going)
            (convert_to_grpc_err-status with_details (create_err err)))
    ]
  ]
]

module _ (with_details : WithDetails) (is_status : GoError → Bool) {W Req Resp : Type 0}
    (handler : Req → W → Reply Resp × W) where
  -- The interceptor runs the handler once and keeps its state. A reply without an error goes through
  -- as it is; one with an error loses its response, and its error becomes a status.
  pub error_response_interceptor_outcome :
      (req : Req) (w : W)
      → ((error_response_interceptor with_details is_status handler req w).1 ≡ (handler req w).1)
        × (((is_nil (handler req w).0.1 ≡ true)
              × ((error_response_interceptor with_details is_status handler req w).0
                  ≡ ((handler req w).0.0, nil)))
            ⊎ ((is_nil (handler req w).0.1 ≡ false)
                × ((error_response_interceptor with_details is_status handler req w).0.0 ≡ none)
                × HasStatus is_status
                    (error_response_interceptor with_details is_status handler req w).0.1))
  unfolding error_response_interceptor
  error_response_interceptor_outcome req w = elim (Bool-cases (is_nil (handler req w).0.1)) [
    | inl fine ↦ (rw fine refl, inl (fine, rw fine refl))
    | inr failed ↦ (
      rw failed refl,
      inr (
        failed,
        rw failed refl,
        rw failed (to_grpc_error-HasStatus with_details is_status _ failed),
      ),
    )
  ]

nil_of_is_nil : (e : GoError) → is_nil e ≡ true → e ≡ nil
nil_of_is_nil nil h = refl
nil_of_is_nil (plain t) h = cc
nil_of_is_nil _ h = cc

refuse-violations :
    (with_details : WithDetails)
    → Attaches with_details
    → (err : GoError) (viols : List FieldError) → first_some violations (nodes err) ≡ some viols
    → refuse with_details err
      ≡ status_error (record {
        code = invalid_argument;
        message = "invalid request";
        details = bad_request viols ∷ [];
      })
unfolding refuse
refuse-violations with_details attaches err viols h =
    ap (refuse_with with_details) (as_type-eq-first_some violations err ∙ h)
    ∙ ap (attached_or "invalid request and internal error")
        (attaches (new_status invalid_argument "invalid request") (bad_request viols))

-- A refused message gets a status.
pub refuse-status :
    (with_details : WithDetails) (err : GoError)
    → (s : Status) × (refuse with_details err ≡ status_error s)
unfolding refuse
refuse-status with_details err = refuse_with-status (as_type violations err)
  where
    refuse_with-status :
        (o : Option (List FieldError))
        → (s : Status) × (refuse_with with_details o ≡ status_error s)
    refuse_with-status none = (_, refl)
    refuse_with-status (some viols) =
        attached_or-status "invalid request and internal error" (with_details _ (bad_request viols))

first_violations-not_nil :
    (err : GoError) {viols : List FieldError}
    → first_some violations (nodes err) ≡ some viols
    → is_nil err ≡ false
unfolding first_some nodes
first_violations-not_nil err h = elim (Bool-cases (is_nil err)) [
  | inl e ↦ absurd (none-ne-some _ (rw (nil_of_is_nil err e) at h))
  | inr e ↦ e
]

-- A message that the validator refuses with a validation error, possibly wrapped, does not reach
-- the handler: the state stays, and the reply is `InvalidArgument` with one field violation for each
-- violation, in order. Attaching details must not fail.
pub validate_refused :
    (with_details : WithDetails)
    → Attaches with_details
    → {W Req Msg Resp : Type 0} (as_message : Req → Option Msg) (validator : Msg → GoError)
      (handler : Req → W → Reply Resp × W) (req : Req) (w : W) (msg : Msg) (viols : List FieldError)
    → as_message req ≡ some msg
    → first_some violations (nodes (validator msg)) ≡ some viols
    → validate with_details as_message validator handler req w ≡ (
      (
        none,
        status_error (record {
          code = invalid_argument;
          message = "invalid request";
          details = bad_request viols ∷ [];
        }),
      ),
      w,
    )
unfolding validate
validate_refused with_details attaches as_message validator handler req w msg viols is_message h =
    rw (is_message, validate)
      (rw
        (
          first_violations-not_nil (validator msg) h,
          refuse-violations with_details attaches (validator msg) viols h,
        )
        refl)
