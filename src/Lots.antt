-- ===== src/Lots.antt =====
-- internal/server/server.go: `LotServer.CreateLot`. The validation of package protovalidate, the
-- query and the text of an uuid are parameters; a handler runs on the state `W` of the query.
pub mod Laws
use be_auction_lot.Prelude.{String, Bool, true, false, Option, some}
use be_auction_lot.Prelude.Int.{ℤ}
use be_auction_lot.AppError.{GoError, invalid_argument, internal}
use be_auction_lot.Outcome.{err, deref}
use be_auction_lot.Action.{Action, ◌>>=◌, lift, return, or_fail}
use be_auction_lot.Filestore.{Uuid}
use be_auction_lot.Valid.{is_nil, status_error_of}

pub record Lot : Type 0 where
  pub lot_title : Option String
  pub description : Option String
  pub category : Option String
  pub bid_opening_price : Option ℤ

pub record CreateLotRequest : Type 0 where
  pub lot : Option Lot

pub record CreateLotResponse : Type 0 where
  pub success : Option Bool
  pub message : Option String
  pub lot_id : Option String

pub record CreateLotParams : Type 0 where
  pub title : String
  pub description : String
  pub category : Option String
  pub bid_opening_price : Option ℤ

abbrev pub invalid_payload : GoError
invalid_payload = status_error_of invalid_argument "invalid lot payload"

abbrev pub creation_failed : GoError
creation_failed = status_error_of internal "error creating lot"

abbrev pub params_of : Lot → String → String → CreateLotParams
params_of lot title description = record {
  title = title;
  description = description;
  category = lot.category;
  bid_opening_price = lot.bid_opening_price;
}

module _ {W : Type 0} (validate : CreateLotRequest → GoError)
    (query : CreateLotParams → Action W Uuid) (uuid_string : Uuid → String) where
  -- `CreateLot` of `Queries`, with its error; what it said before is printed.
  unfoldable pub insert_lot : CreateLotParams → Action W Uuid
  insert_lot params = or_fail (query params) (λ _. creation_failed)

  -- The handler behind its first check.
  unfoldable pub create_valid_lot : CreateLotRequest → Action W CreateLotResponse
  unfolding insert_lot
  create_valid_lot req = do
    lot ← lift (deref req.lot)
    title ← lift (deref lot.lot_title)
    description ← lift (deref lot.description)
    id ← insert_lot (params_of lot title description)
    return (record {
      success = some true;
      message = some "Lot Created";
      lot_id = some (uuid_string id);
    })

  unfoldable pub create_lot : CreateLotRequest → Action W CreateLotResponse
  unfolding create_valid_lot
  create_lot req = elim (is_nil (validate req)) [
    | true ↦ create_valid_lot req
    | false ↦ lift (err invalid_payload)
  ]
