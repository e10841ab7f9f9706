-- ===== src/AppError.antt =====
-- internal/apperror/apperror.go: the error values of the program and its constructors. An `error`
-- is a value of `GoError`, with `nil` for the nil interface; the errors of the libraries that the
-- program tells apart are constructors of their own, and all
-- others are `plain`. The text of an error is kept as the pieces around what it wraps.
pub mod Client
pub mod Laws
pub mod Told
use be_auction_lot.Prelude.{String, ◌<>◌, Bool, true, false, List, [], ◌∷◌, map}

-- `ErrCode`: `unset` is the zero value, which the const block leaves unnamed.
pub data ErrCode : Type 0 where
  unset code_invalid_argument code_storage_conflict code_internal_server_error : ErrCode
  code_unknown_error code_not_found : ErrCode

pub record FieldError : Type 0 where
  pub field : String
  pub description : String

-- The codes of grpc that the program names.
pub data GrpcCode : Type 0 where
  invalid_argument failed_precondition internal unknown not_found : GrpcCode
  deadline_exceeded canceled : GrpcCode

-- The two detail messages that the program attaches to a status.
pub data Details : Type 0 where
  bad_request : List FieldError → Details
  precondition_failure : List FieldError → Details

pub record Status : Type 0 where
  pub code : GrpcCode
  pub message : String
  pub details : List Details

mutual
  pub data GoError : Type 0 where
    nil : GoError
    app : AppError → GoError
    -- `fmt.Errorf` with one `%w`: the text before it, the error that `Unwrap` returns and the text
    -- behind it
    wrapped : String → GoError → String → GoError
    -- an error whose `Unwrap` returns a list
    joined : GoErrors → GoError
    -- `status.Error(…)` and `st.Err()`
    status_error : Status → GoError
    -- `*pgconn.PgError`, by its `ConstraintName`
    pg_error : String → GoError
    -- `pgx.ErrNoRows`, `context.DeadlineExceeded`, `context.Canceled`
    err_no_rows err_deadline_exceeded err_canceled : GoError
    -- `*protovalidate.ValidationError`
    validation_error : List FieldError → GoError
    plain : String → GoError

  pub data AppError : Type 0 where
    app_error :
        (op : String) (code : ErrCode) (message : String) (fields : List FieldError) (err : GoError)
        (merge is_client_err : Bool)
        → AppError

  pub data GoErrors : Type 0 where
    no_errors : GoErrors
    more_errors : GoError → GoErrors → GoErrors

abbrev pub op : AppError → String
op (app_error o _ _ _ _ _ _) = o

abbrev pub code : AppError → ErrCode
code (app_error _ c _ _ _ _ _) = c

abbrev pub message : AppError → String
message (app_error _ _ m _ _ _ _) = m

abbrev pub fields : AppError → List FieldError
fields (app_error _ _ _ fs _ _ _) = fs

abbrev pub unwrap : AppError → GoError
unwrap (app_error _ _ _ _ e _ _) = e

abbrev pub get_merge_status : AppError → Bool
get_merge_status (app_error _ _ _ _ _ m _) = m

abbrev pub is_client_err : AppError → Bool
is_client_err (app_error _ _ _ _ _ _ b) = b

unfoldable pub mark_as_client_err : AppError → AppError
mark_as_client_err (app_error o c m fs e g _) = app_error o c m fs e g true

unfoldable pub remove_from_client_err : AppError → AppError
remove_from_client_err (app_error o c m fs e g _) = app_error o c m fs e g false

unfoldable pub mark_as_client_err_and_merge : AppError → AppError
mark_as_client_err_and_merge (app_error o c m fs e _ _) = app_error o c m fs e true true

unfoldable pub un_merge : AppError → AppError
un_merge (app_error o c m fs e _ b) = app_error o c m fs e false b

-- `strings.Join(parts, sep)`
unfoldable pub join : String → List String → String
join sep [] = ""
join sep (s ∷ []) = s
join sep (s ∷ more) = s <> (sep <> join sep more)

-- `FieldError.getMessage`
unfoldable pub get_message : FieldError → String
get_message f = "Error in field: " <> (f.field <> (",description: " <> f.description))

pub record ErrDetails : Type 0 where
  pub fields : List FieldError
  pub message : String

unfoldable pub invalid_argument_error : String → ErrDetails → GoError → AppError
unfolding join get_message
invalid_argument_error o d err =
    app_error o code_invalid_argument d.message d.fields
      (wrapped
        ("invalid arguments are: " <> (join "\n" (map get_message d.fields) <> ", error is: ")) err
        "")
      false false

unfoldable pub precondition_failed_error : String → ErrDetails → GoError → AppError
unfolding join get_message
precondition_failed_error o d err =
    app_error o code_storage_conflict d.message d.fields
      (wrapped
        ("failed preconditions are: " <> (join "\n" (map get_message d.fields) <> ", error is: "))
        err "")
      false false

unfoldable pub not_found_error : String → GoError → String → AppError
not_found_error o err msg = app_error o code_not_found msg [] err false false

-- Neither `Code` nor `Message` is set.
unfoldable pub internal_server_error : String → GoError → String → AppError
internal_server_error o err msg = app_error o unset "" [] (wrapped (msg <> ":") err ",") false false

unfoldable pub catch_all_unknown_server_error : String → GoError → String → AppError
catch_all_unknown_server_error o err msg = app_error o code_unknown_error msg [] err false false
