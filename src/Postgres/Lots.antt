-- ===== src/Postgres/Lots.antt =====
-- internal/database/filestore/auction_lot_table_query.sql.go: the insert of a lot into the table of
-- the migrations 000001 and 000002, and the handler of Lots over the connection.
pub mod Laws
pub mod Cases
use Prim.Native.Char.{Char, code}
use Prim.Native.String
use mathlib.Core.Option
use be_auction_lot.Prelude.{
  ℕ, zero, suc, ◌+◌, Bool, true, ◌&&◌, Option, none, some, [], ◌∷◌, ◌++◌, String, ◌==◌,
  if◌then◌else◌,
}
use be_auction_lot.AppError.{GoError, pg_error}
use be_auction_lot.Outcome.{Outcome, ok, err}
use be_auction_lot.Action.{Action, ◌>>=◌, lift}
use be_auction_lot.Filestore.{Uuid, Queries}
use be_auction_lot.Lots.{CreateLotRequest, CreateLotResponse, CreateLotParams, create_lot}
use be_auction_lot.Postgres.{Lot, Counters, Work, Functions}
use be_auction_lot.Postgres.Upserts.{or_data_error, has_lot}
use be_auction_lot.Postgres.Session.{Db, execute_on}

unfoldable pub is_blank : String → Bool
is_blank String.[] = true
is_blank (String.◌∷◌ c s) = (code c == b' ') && is_blank s

-- A text in a column `varchar(n)`: what is over the width must be spaces, and is cut off.
unfoldable pub varchar : ℕ → String → Option String
unfolding is_blank
varchar n String.[] = some String.[]
varchar zero (String.◌∷◌ c s) = if is_blank (String.◌∷◌ c s) then some String.[] else none
varchar (suc n) (String.◌∷◌ c s) = Option.map (String.◌∷◌ c) (varchar n s)

-- The same for a column that may be null.
abbrev pub varchar_or_null : ℕ → Option String → Option (Option String)
varchar_or_null n none = some none
varchar_or_null n (some s) = Option.map some (varchar n s)

abbrev pub taken_id : GoError
taken_id = pg_error "lots_pkey"

-- One more random uuid is used.
abbrev pub draw : Counters → Counters
draw c = record c { uuids = c.uuids + 1 }

-- A row under a new id, which the primary key refuses if it is taken.
unfoldable pub add_lot : Lot → Action Work Uuid
unfolding has_lot
add_lot lot w =
    if has_lot lot.id w.tables.lots
    then (err taken_id, record w { counters = draw w.counters })
    else (
      ok lot.id,
      record w {
        tables = record w.tables { lots = w.tables.lots ++ (lot ∷ []) };
        counters = draw w.counters;
      },
    )

abbrev pub lot_of : CreateLotParams → String → String → Option String → Uuid → Lot
lot_of arg title description category id = record {
  id = id;
  title = title;
  description = description;
  category = category;
  bid_opening_price = arg.bid_opening_price;
}

module _ (f : Functions) where
  -- The statement of `CreateLot`.
  unfoldable pub insert_into_lots : CreateLotParams → Action Work Uuid
  unfolding varchar add_lot
  insert_into_lots arg = do
    title ← lift (or_data_error (varchar 260 arg.title))
    description ← lift (or_data_error (varchar 450 arg.description))
    category ← lift (or_data_error (varchar_or_null 260 arg.category))
    λ w. add_lot (lot_of arg title description category (f.random_uuid w.counters.uuids)) w

  -- `CreateLot` of `Queries`, whose connection is the only one.
  unfoldable pub query_create_lot : Queries → CreateLotParams → Action Db Uuid
  unfolding insert_into_lots execute_on
  query_create_lot q arg db = execute_on (insert_into_lots arg) db.transaction db

  abbrev pub create_lot_on :
      (CreateLotRequest → GoError)
      → (Uuid → String)
      → Queries
      → CreateLotRequest
      → Action Db CreateLotResponse
  create_lot_on validate uuid_string q = create_lot validate (query_create_lot q) uuid_string
