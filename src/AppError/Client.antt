-- ===== src/AppError/Client.antt =====
-- internal/apperror/apperror.go: what of an error the client is told. The result of
-- `generateClientFields` is the message, the `detailedError` interface (`none` for nil) and `ok`.
use mathlib.Core.Option
use be_auction_lot.Prelude.{
  String, ◌<>◌, Bool, true, false, not, Option, none, some, List, [], ◌++◌, str_eq, if◌then◌else◌,
}
use be_auction_lot.AppError.{
  GoError, nil, app, wrapped, joined, AppError, app_error, GoErrors, no_errors, more_errors,
  FieldError,
}

pub record ErrorMessage : Type 0 where
  pub message : String
  pub fields : List FieldError

abbrev pub empty_message : ErrorMessage
empty_message = record { message = ""; fields = [] }

-- `out.Message`: a text that is not empty is added behind a ";" if there is one before it.
unfoldable pub join_messages : String → String → String
join_messages a b = if str_eq b "" then a else ((if str_eq a "" then a else a <> ";") <> b)

unfoldable pub accumulate : ErrorMessage → List FieldError → String → ErrorMessage
accumulate em fields msg = record {
  message = join_messages em.message msg;
  fields = em.fields ++ fields;
}

abbrev pub Found : Type 0
Found = record { message : ErrorMessage; error : Option AppError; ok : Bool }

-- `mergeAppErr.Fields = …; mergeAppErr.Message = …`
abbrev pub retell : ErrorMessage → AppError → AppError
retell told (app_error o c _ _ err merge client) =
    app_error o c told.message told.fields err merge client

-- The loop over `t.Unwrap()` keeps the first error found.
abbrev pub first_found : Option AppError × Bool → Found → Option AppError × Bool
first_found (first, true) found = (first, true)
first_found (first, false) found = if found.ok then (found.error, true) else (first, false)

unfoldable mutual
  pub generate_client_fields : GoError → ErrorMessage → Found
  generate_client_fields nil acc = record { message = acc; error = none; ok = false }
  generate_client_fields (app e) acc = generate_client_fields_app e acc
  generate_client_fields (wrapped _ e _) acc = generate_client_fields e acc
  generate_client_fields (joined es) acc = generate_client_fields_all es acc none false
  generate_client_fields _ acc = record { message = acc; error = none; ok = false }

  pub generate_client_fields_app : AppError → ErrorMessage → Found
  generate_client_fields_app (app_error o c msg fs err merge client) acc =
      let self = app_error o c msg fs err merge client in
      let told = accumulate acc fs msg in
      let inner = generate_client_fields err told in
      let outer = generate_client_fields err acc in
      if client
      then (if not merge
          then record { message = told; error = some self; ok = true }
          else record { message = inner.message; error = some self; ok = true })
      else outer

  pub generate_client_fields_all : GoErrors → ErrorMessage → Option AppError → Bool → Found
  generate_client_fields_all no_errors acc first found = record {
    message = acc;
    error = first;
    ok = found;
  }
  generate_client_fields_all (more_errors e es) acc first found =
      let one = generate_client_fields e empty_message in
      let next = first_found (first, found) one in
      generate_client_fields_all es (accumulate acc one.message.fields one.message.message) next.0
        next.1

-- The result is the pair of an error and `ok`, with `none` for `(AppError{}, false)`. A found error
-- that is nil would panic in `GiveErr`; `generate_client_fields-eq-summary` shows that there is none.
unfoldable pub create_client_err : GoError → Option AppError
unfolding generate_client_fields
create_client_err err =
    let found = generate_client_fields err empty_message in
    if found.ok then Option.map (retell found.message) found.error else none
