-- ===== src/Tests/Lots.antt =====
-- Witnesses for the theorems about lots and about rows.
use be_auction_lot.Prelude.{
  String, true, false, none, some, ◌≡◌, ◌⊎◌, List, [], ◌∷◌, ◌++◌, ◌↔◌, map, ℕ,
}
use be_auction_lot.AppError.{GoError, nil}
use be_auction_lot.Outcome.{ok, err, panic}
use be_auction_lot.Action.{Action}
use be_auction_lot.Filestore.{Uuid, uuid}
use be_auction_lot.Filestore.Enums.{scan_null_upload_attempt_state, value_null_upload_attempt_state}
use be_auction_lot.Filestore.Enums.Laws.{scan_null-value_null}
use be_auction_lot.Filestore.Rows.{row, ResultSet, collect_rows}
use be_auction_lot.Filestore.Rows.Laws.{collect_rows_iff}
use be_auction_lot.ImageStore.Upload.Laws.{IsFailure}
use be_auction_lot.Postgres.{Lot, Tables}
use be_auction_lot.Postgres.Session.{idle, active, aborted, Db, rollback_on}
use be_auction_lot.Postgres.Lots.{create_lot_on}
use be_auction_lot.Postgres.Lots.Laws.{Names, with_lot}
use be_auction_lot.Postgres.Lots.Cases.{create_lot_on_cases}
use be_auction_lot.Tests.Database.{functions, database, tables}
use be_auction_lot.Tests.World.{queries}
use be_auction_lot.Valid.{is_nil}
use be_auction_lot.Lots.{CreateLotRequest, CreateLotParams, invalid_payload, create_lot}
use be_auction_lot.Lots.Laws.{IsBare, Ran, create_lot_cases}

abbrev vase : CreateLotRequest
vase = record {
  lot = some (record {
    lot_title = some "Vase";
    description = some "blue";
    category = none;
    bid_opening_price = none;
  });
}

abbrev accepting : CreateLotRequest → GoError
accepting _ = nil

-- The state is the list of the lots.
abbrev storing : CreateLotParams → Action (List CreateLotParams) Uuid
storing params lots = (ok (uuid 7), lots ++ (params ∷ []))

abbrev text_of : Uuid → String
text_of _ = "00000000-0000-0000-0000-000000000007"

create_lot_cases_example :
    let r = create_lot accepting storing text_of vase [] in
    ((is_nil (accepting vase) ≡ false) × (r ≡ (err invalid_payload, [])))
    ⊎ ((is_nil (accepting vase) ≡ true)
        × ((IsBare accepting storing text_of vase × (r ≡ (panic, [])))
            ⊎ Ran accepting storing text_of vase [] r))
create_lot_cases_example = create_lot_cases accepting storing text_of vase []

-- The connection while an upload has its transaction open on it.
abbrev busy : Db
busy = record database { transaction = active tables }

create_lot_on_cases_example :
    let x = create_lot_on functions accepting text_of queries vase busy in
    ((busy.transaction ≡ idle)
      × (x.1.transaction ≡ idle)
      × ((IsFailure x.0 × (x.1.committed ≡ busy.committed))
          ⊎ ((lot : Lot) × Names functions accepting text_of queries vase busy.committed x.0 lot
              × (x.1.committed ≡ with_lot busy.committed lot))))
    ⊎ (((t : Tables) × (busy.transaction ≡ active t)
          × (x.1.committed ≡ busy.committed)
          × (IsFailure x.0
              ⊎ ((lot : Lot) × Names functions accepting text_of queries vase t x.0 lot
                  × (x.1.transaction ≡ active (with_lot t lot))
                  × ((rollback_on x.1.transaction x.1).1.committed ≡ busy.committed))))
        ⊎ ((busy.transaction ≡ aborted) × IsFailure x.0 × (x.1 ≡ busy)))
create_lot_on_cases_example = create_lot_on_cases functions accepting text_of queries vase busy

scan_null-value_null_example :
    scan_null_upload_attempt_state
      (record { upload_attempt_state = "old"; valid = true })
      (value_null_upload_attempt_state (record { upload_attempt_state = "pending"; valid = true }))
    ≡ (record { upload_attempt_state = "pending"; valid = true }, nil)
scan_null-value_null_example =
    scan_null-value_null (record { upload_attempt_state = "old"; valid = true }) "pending" true

abbrev two_rows : ResultSet ℕ
two_rows = record { scans = row 1 ∷ (row 2 ∷ []); rows_err = nil }

collect_rows_iff_example :
    (collect_rows two_rows ≡ ok (1 ∷ (2 ∷ [])))
    ↔ ((two_rows.scans ≡ map row (1 ∷ (2 ∷ []))) × (two_rows.rows_err ≡ nil))
collect_rows_iff_example = collect_rows_iff two_rows (1 ∷ (2 ∷ []))
