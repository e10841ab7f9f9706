-- ===== src/AppError/Told.antt =====
-- internal/apperror/apperror.go: what `CreateClientErr` tells the client, written out: the messages
-- of the client errors that are not empty with ";" between them, and their fields in order.
use mathlib.Core.Option
use text.Mathlib.TextLemmas
use be_auction_lot.Prelude.{
  String, Bool, true, not, Option, none, some, List, [], ◌∷◌, ◌++◌, ◌≡◌, refl, sym, ap, ◌∙◌, ◌≢◌,
  inl, inr, str_eq, keep, map, All, All-keep,
}
use be_auction_lot.AppError.{GoError, AppError, app_error, FieldError, message, fields, join}
use be_auction_lot.AppError.Client.{
  ErrorMessage, empty_message, join_messages, accumulate, retell, create_client_err,
}
use be_auction_lot.AppError.Laws.{
  client_errors, tell, head, accumulate-tell, nil-join_messages, join_messages-nil,
  join_messages_full, str_eq_ne, text-cases, create_client_err-tell,
}

abbrev pub is_full : String → Bool
is_full s = not (str_eq s "")

abbrev pub all_fields : List AppError → List FieldError
all_fields [] = []
all_fields (e ∷ es) = fields e ++ all_fields es

abbrev pub told_of : List AppError → ErrorMessage
told_of es = record { message = join ";" (keep is_full (map message es)); fields = all_fields es }

-- The first error, with what all of them say.
abbrev pub merged : List AppError → Option AppError
merged [] = none
merged (app_error o c msg fs err merge client ∷ es) =
    let told = told_of (app_error o c msg fs err merge client ∷ es) in
    some (app_error o c told.message told.fields err merge client)

join-ne-nil : (s : String) (ss : List String) → s ≢ "" → join ";" (s ∷ ss) ≢ ""
unfolding join
join-ne-nil s [] full = full
join-ne-nil s (t ∷ ts) full = λ e. full (TextLemmas.append-eq-nil_iff.0 e).0

ne_of_is_full : (s : String) → is_full s ≡ true → s ≢ ""
ne_of_is_full s h e = cc

-- A text in front of texts that are not empty.
join-cons :
    (s : String) (ss : List String)
    → s ≢ ""
    → All (λ t. is_full t ≡ true) ss
    → join ";" (s ∷ ss) ≡ join_messages s (join ";" ss)
unfolding join
join-cons s [] full _ = sym (join_messages-nil s)
join-cons s (t ∷ ts) full (h, _) =
    sym (join_messages_full s (join ";" (t ∷ ts)) full (join-ne-nil t ts (ne_of_is_full t h)))

join_full-cons :
    (s : String) (ss : List String)
    → join ";" (keep is_full (s ∷ ss)) ≡ join_messages s (join ";" (keep is_full ss))
unfolding keep
join_full-cons s ss = elim (text-cases s) [
  | inl e ↦ rw e (sym (nil-join_messages (join ";" (keep is_full ss))))
  | inr full ↦ rw (str_eq_ne full) (join-cons s (keep is_full ss) full (All-keep is_full ss))
]

-- The walk's accumulator, written out.
pub tell-told_of : (es : List AppError) → tell empty_message es ≡ told_of es
unfolding tell accumulate join keep
tell-told_of [] = refl
tell-told_of (e ∷ es) =
    sym (accumulate-tell es (accumulate empty_message (fields e) (message e))) ∙ (λ i. record {
      message =
          (ap (λ m. join_messages m (tell empty_message es).message) (nil-join_messages (message e))
              ∙ (ap (λ t. join_messages (message e) t.message) (tell-told_of es)
                  ∙ sym (join_full-cons (message e) (map message es))))
            i;
      fields = ap (λ t. fields e ++ t.fields) (tell-told_of es) i;
    })

-- The error built for the client is the first client error of the tree, with two fields set: the
-- message is those of all client errors that are not empty, in order with ";" between them, and the
-- fields are those of all client errors, in order. There is none exactly if the tree has no client
-- error.
pub create_client_err-eq : (e : GoError) → create_client_err e ≡ merged (client_errors e)
create_client_err-eq e =
    create_client_err-tell e
    ∙ (ap (λ t. Option.map (retell t) (head (client_errors e))) (tell-told_of (client_errors e))
        ∙ retold (client_errors e))
  where
    retold : (es : List AppError) → Option.map (retell (told_of es)) (head es) ≡ merged es
    retold [] = refl
    retold (app_error o c msg fs err merge client ∷ es) = refl
