-- ===== src/AppError/Laws.antt =====
-- The walk over an error tree against a flat description: the errors that the client is told, in
-- order, and the summary of such a list.
use mathlib.Core.Option
use text.Mathlib.TextLemmas
use be_auction_lot.Prelude.{
  String, ◌<>◌, Bool, true, false, Option, none, some, List, [], ◌∷◌, ◌++◌, ◌≡◌, refl, sym, ap, ◌∙◌,
  ◌≢◌, ◌⊎◌, inl, inr, arith, Bool-cases, str_eq, if◌then◌else◌, eq_iff, append_assoc, append-nil,
}
use be_auction_lot.AppError.{
  GoError, nil, app, wrapped, joined, status_error, AppError, app_error, GoErrors, no_errors,
  more_errors, message, fields,
}
use be_auction_lot.AppError.Client.{
  ErrorMessage, empty_message, join_messages, accumulate, Found, first_found, retell,
  generate_client_fields, generate_client_fields_app, generate_client_fields_all, create_client_err,
}

-- The errors for the client: a marked error hides what it wraps unless it is marked to merge.
unfoldable mutual
  pub client_errors : GoError → List AppError
  client_errors nil = []
  client_errors (app e) = client_errors_app e
  client_errors (wrapped _ e _) = client_errors e
  client_errors (joined es) = client_errors_all es
  client_errors _ = []

  client_errors_app : AppError → List AppError
  client_errors_app (app_error o c msg fs err merge true) =
      app_error o c msg fs err merge true ∷ (if merge then client_errors err else [])
  client_errors_app (app_error o c msg fs err merge false) = client_errors err

  client_errors_all : GoErrors → List AppError
  client_errors_all no_errors = []
  client_errors_all (more_errors e es) = client_errors e ++ client_errors_all es

combine : ErrorMessage → ErrorMessage → ErrorMessage
combine a b = accumulate a b.fields b.message

unfoldable pub tell : ErrorMessage → List AppError → ErrorMessage
tell acc [] = acc
tell acc (e ∷ es) = tell (accumulate acc (fields e) (message e)) es

abbrev pub head : List AppError → Option AppError
head [] = none
head (e ∷ _) = some e

abbrev pub is_cons : List AppError → Bool
is_cons [] = false
is_cons (_ ∷ _) = true

abbrev pub summary : List AppError → ErrorMessage → Found
summary es acc = record { message = tell acc es; error = head es; ok = is_cons es }

pub str_eq_ne : {s t : String} → s ≢ t → str_eq s t ≡ false
str_eq_ne {s} {t} h = elim (Bool-cases (str_eq s t)) [
  | inl e ↦ absurd (h ((eq_iff s t).0 e))
  | inr e ↦ e
]

pub text-cases : (s : String) → (s ≡ "") ⊎ (s ≢ "")
text-cases s = elim (Bool-cases (str_eq s "")) [
  | inl e ↦ inl ((eq_iff s "").0 e)
  | inr e ↦ inr (λ p. cc ((eq_iff s "").1 p))
]

pub join_messages-nil : (a : String) → join_messages a "" ≡ a
unfolding join_messages
join_messages-nil a = refl

pub nil-join_messages : (b : String) → join_messages "" b ≡ b
unfolding join_messages
nil-join_messages b = ground (arith, eq_iff b "", TextLemmas.nil-append b)

join_messages-ne-nil : (a b : String) → b ≢ "" → join_messages a b ≢ ""
unfolding join_messages
join_messages-ne-nil a b full =
    rw (str_eq_ne full) (TextLemmas.append-ne-nil_of_right_ne-nil _ full)

pub join_messages_full : (a b : String) → a ≢ "" → b ≢ "" → join_messages a b ≡ a <> (";" <> b)
unfolding join_messages
join_messages_full a b h full = rw (str_eq_ne full, str_eq_ne h) (TextLemmas.append_assoc a ";" b)

-- With no text empty both sides are the texts with ";" between them.
join_messages_assoc_full :
    (a b c : String)
    → a ≢ ""
    → b ≢ ""
    → c ≢ ""
    → join_messages (join_messages a b) c ≡ join_messages a (join_messages b c)
join_messages_assoc_full a b c ha hb hc =
    join_messages_full (join_messages a b) c (join_messages-ne-nil a b hb) hc
    ∙ ap (λ s. s <> (";" <> c)) (join_messages_full a b ha hb)
    ∙ (simp TextLemmas.append_assoc)
    ∙ ap (λ s. a <> (";" <> s)) (sym (join_messages_full b c hb hc))
    ∙ sym (join_messages_full a (join_messages b c) ha (join_messages-ne-nil b c hc))

join_messages_assoc :
    (a b c : String) → join_messages (join_messages a b) c ≡ join_messages a (join_messages b c)
join_messages_assoc a b c = elim (text-cases c) [
  | inl none_c ↦ rw none_c (simp join_messages-nil)
  | inr some_c ↦ elim (text-cases b) [
    | inl none_b ↦ rw none_b (simp (join_messages-nil, nil-join_messages))
    | inr some_b ↦ elim (text-cases a) [
      | inl none_a ↦ rw none_a (simp nil-join_messages)
      | inr some_a ↦ join_messages_assoc_full a b c some_a some_b some_c
    ]
  ]
]

combine_assoc : (a b c : ErrorMessage) → combine (combine a b) c ≡ combine a (combine b c)
unfolding combine accumulate
combine_assoc a b c = λ i. record {
  message = join_messages_assoc a.message b.message c.message i;
  fields = append_assoc a.fields b.fields c.fields i;
}

nil-combine : (b : ErrorMessage) → combine empty_message b ≡ b
unfolding combine accumulate
nil-combine b = λ i. record { message = nil-join_messages b.message i; fields = b.fields }

tell-append :
    (xs ys : List AppError) (acc : ErrorMessage) → tell acc (xs ++ ys) ≡ tell (tell acc xs) ys
unfolding tell
tell-append [] ys acc = refl
tell-append (x ∷ xs) ys acc = tell-append xs ys _

-- What is told after `acc` is what would be told alone, put behind `acc`.
combine-tell :
    (es : List AppError) (acc a : ErrorMessage) → combine acc (tell a es) ≡ tell (combine acc a) es
unfolding tell combine
combine-tell [] acc a = refl
combine-tell (e ∷ es) acc a =
    combine-tell es acc (accumulate a (fields e) (message e))
    ∙ ap (λ m. tell m es)
        (sym (combine_assoc acc a (record { message = message e; fields = fields e })))

combine_nil : (acc : ErrorMessage) → combine acc empty_message ≡ acc
unfolding combine accumulate
combine_nil acc =
    λ i. record { message = join_messages-nil acc.message i; fields = append-nil acc.fields i }

pub accumulate-tell :
    (es : List AppError) (acc : ErrorMessage)
    → accumulate acc (tell empty_message es).fields (tell empty_message es).message ≡ tell acc es
unfolding combine
accumulate-tell es acc = combine-tell es acc empty_message ∙ ap (λ m. tell m es) (combine_nil acc)

abbrev or_head : Option AppError × Bool → List AppError → Option AppError × Bool
or_head (first, true) es = (first, true)
or_head (first, false) [] = (first, false)
or_head (first, false) (e ∷ _) = (some e, true)

-- The summary of a list behind what the loop has found so far.
abbrev summary_from : Option AppError × Bool → List AppError → ErrorMessage → Found
summary_from first es acc = record {
  message = tell acc es;
  error = (or_head first es).0;
  ok = (or_head first es).1;
}

summary_from-none :
    (es : List AppError) (acc : ErrorMessage) → summary_from (none, false) es acc ≡ summary es acc
summary_from-none [] acc = refl
summary_from-none (e ∷ es) acc = refl

or_head-append :
    (first : Option AppError × Bool) (xs ys : List AppError) (acc : ErrorMessage)
    → or_head (first_found first (summary xs acc)) ys ≡ or_head first (xs ++ ys)
or_head-append (first, true) xs ys acc = refl
or_head-append (first, false) [] [] acc = refl
or_head-append (first, false) [] (y ∷ ys) acc = refl
or_head-append (first, false) (x ∷ xs) ys acc = refl

summary_from-append :
    (first : Option AppError × Bool) (xs ys : List AppError) (acc : ErrorMessage)
    → summary_from
        (first_found first (summary xs empty_message))
        ys
        (accumulate acc (tell empty_message xs).fields (tell empty_message xs).message)
      ≡ summary_from first (xs ++ ys) acc
summary_from-append first xs ys acc =
    rw (accumulate-tell xs acc, tell-append xs ys acc, or_head-append first xs ys empty_message)
      refl

mutual
  unfolding generate_client_fields client_errors tell

  generate_client_fields-eq :
      (e : GoError) (acc : ErrorMessage)
      → generate_client_fields e acc ≡ summary (client_errors e) acc
  generate_client_fields-eq nil acc = refl
  generate_client_fields-eq (app e) acc = generate_client_fields_app-eq e acc
  generate_client_fields-eq (wrapped _ e _) acc = generate_client_fields-eq e acc
  generate_client_fields-eq (joined es) acc =
      generate_client_fields_all-eq es acc (none, false)
      ∙ summary_from-none (client_errors_all es) acc
  generate_client_fields-eq (status_error s) acc = refl
  generate_client_fields-eq _ acc = refl

  generate_client_fields_app-eq :
      (e : AppError) (acc : ErrorMessage)
      → generate_client_fields_app e acc ≡ summary (client_errors_app e) acc
  generate_client_fields_app-eq (app_error o c msg fs err true true) acc =
      rw (generate_client_fields-eq err (accumulate acc fs msg)) refl
  generate_client_fields_app-eq (app_error o c msg fs err false true) acc = refl
  generate_client_fields_app-eq (app_error o c msg fs err m false) acc =
      generate_client_fields-eq err acc

  generate_client_fields_all-eq :
      (es : GoErrors) (acc : ErrorMessage) (first : Option AppError × Bool)
      → generate_client_fields_all es acc first.0 first.1
        ≡ summary_from first (client_errors_all es) acc
  generate_client_fields_all-eq no_errors acc (first, true) = refl
  generate_client_fields_all-eq no_errors acc (first, false) = refl
  generate_client_fields_all-eq (more_errors e es) acc first =
      rw (generate_client_fields-eq e empty_message) (
        generate_client_fields_all-eq es _ _
        ∙ summary_from-append first (client_errors e) (client_errors_all es) acc)

summary_found :
    (es : List AppError) (told : ErrorMessage)
    → (if is_cons es then Option.map (retell told) (head es) else none)
      ≡ Option.map (retell told) (head es)
summary_found [] told = refl
summary_found (e ∷ es) told = refl

-- What the walk over an error tree returns is the summary of the flat list of its client errors:
-- their messages that are not empty joined by ";" behind the accumulator's, their fields in order,
-- the first of them as the error, and `ok` exactly if there is one.
pub generate_client_fields-eq-summary :
    (e : GoError) (acc : ErrorMessage)
    → generate_client_fields e acc ≡ summary (client_errors e) acc
generate_client_fields-eq-summary e acc = generate_client_fields-eq e acc

-- The error built for the client, by the accumulator of the walk.
pub create_client_err-tell :
    (e : GoError)
    → create_client_err e
      ≡ Option.map (retell (tell empty_message (client_errors e))) (head (client_errors e))
unfolding create_client_err
create_client_err-tell e =
    rw (generate_client_fields-eq e empty_message) (summary_found (client_errors e) _)
