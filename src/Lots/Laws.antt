-- ===== src/Lots/Laws.antt =====
-- How the creation of a lot ends.
use be_auction_lot.Prelude.{
  String, true, false, none, some, ◌≡◌, refl, ◌⊎◌, inl, inr, Bool-cases, Option-cases,
}
use be_auction_lot.AppError.{GoError}
use be_auction_lot.Outcome.{Outcome, ok, err, panic, map_err}
use be_auction_lot.Action.{Action, continue_with, return}
use be_auction_lot.Filestore.{Uuid}
use be_auction_lot.Valid.{is_nil}
use be_auction_lot.Lots.{
  Lot, CreateLotRequest, CreateLotResponse, CreateLotParams, invalid_payload, creation_failed,
  params_of, create_lot, create_valid_lot, insert_lot,
}

abbrev pub created : String → CreateLotResponse
created id = record { success = some true; message = some "Lot Created"; lot_id = some id }

-- The columns of the insert.
abbrev pub inserted : Lot → String → String → CreateLotParams
inserted lot t d = record {
  title = t;
  description = d;
  category = lot.category;
  bid_opening_price = lot.bid_opening_price;
}

module _ {W : Type 0} (validate : CreateLotRequest → GoError)
    (query : CreateLotParams → Action W Uuid) (uuid_string : Uuid → String) where
  -- What the handler answers when the query has run.
  abbrev pub answer : Outcome Uuid → Outcome CreateLotResponse
  answer (ok id) = ok (created (uuid_string id))
  answer (err e) = err creation_failed
  answer panic = panic

  -- A run answers for the query, which ran on the fields of the request, once.
  abbrev pub Ran : CreateLotRequest → W → Outcome CreateLotResponse × W → Type 0
  Ran req w r =
      (lot : Lot) × (title : String) × (description : String) × (req.lot ≡ some lot)
      × (lot.lot_title ≡ some title)
      × (lot.description ≡ some description)
      × (r ≡ (
        answer (query (inserted lot title description) w).0,
        (query (inserted lot title description) w).1,
      ))

  -- The lot, its title or its description is missing.
  abbrev pub IsBare : CreateLotRequest → Type 0
  IsBare req =
      (req.lot ≡ none)
      ⊎ ((lot : Lot) × (req.lot ≡ some lot) × ((lot.lot_title ≡ none) ⊎ (lot.description ≡ none)))

  answered :
      (params : CreateLotParams) (w : W) (r : Outcome Uuid)
      → continue_with (λ id. return (created (uuid_string id))) (map_err (λ _. creation_failed) r) w
        ≡ (answer r, w)
  answered params w (ok id) = refl
  answered params w (err e) = refl
  answered params w panic = refl

  create_valid_lot_cases :
      (req : CreateLotRequest) (w : W)
      → (IsBare req × (create_valid_lot validate query uuid_string req w ≡ (panic, w)))
        ⊎ Ran req w (create_valid_lot validate query uuid_string req w)
  unfolding create_valid_lot insert_lot
  create_valid_lot_cases req w = elim (Option-cases req.lot) [
    | inl no_lot ↦ inl (inl no_lot, rw no_lot refl)
    | inr (lot, e) ↦ elim (Option-cases lot.lot_title) [
      | inl untitled ↦ inl (inr (lot, e, inl untitled), rw e (rw untitled refl))
      | inr (title, e') ↦ elim (Option-cases lot.description) [
        | inl bare ↦ inl (inr (lot, e, inr bare), rw e (rw e' (rw bare refl)))
        | inr (description, e'') ↦ inr (
          lot,
          title,
          description,
          e,
          e',
          e'',
          rw e (
              rw e' (
                rw e'' (
                  answered (params_of lot title description)
                    (query (params_of lot title description) w).1
                    (query (params_of lot title description) w).0))),
        )
      ]
    ]
  ]

  -- The creation of a lot ends in one of three ways. A request that the validator refuses is an
  -- invalid argument and nothing runs. A valid one that lacks the lot, its title or its description
  -- panics and nothing runs. Any other runs the insert once, on its title, its description, its
  -- category and its opening price; a failed insert is
  -- answered with an internal error, and a good one with the id of the lot.
  pub create_lot_cases :
      (req : CreateLotRequest) (w : W)
      → ((is_nil (validate req) ≡ false)
          × (create_lot validate query uuid_string req w ≡ (err invalid_payload, w)))
        ⊎ ((is_nil (validate req) ≡ true)
            × ((IsBare req × (create_lot validate query uuid_string req w ≡ (panic, w)))
                ⊎ Ran req w (create_lot validate query uuid_string req w)))
  unfolding create_lot
  create_lot_cases req w = elim (Bool-cases (is_nil (validate req))) [
    | inl fine ↦ inr (fine, rw (fine, create_lot) (create_valid_lot_cases req w))
    | inr refused ↦ inl (refused, rw (refused, create_lot) refl)
  ]
