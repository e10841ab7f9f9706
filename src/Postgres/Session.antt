-- ===== src/Postgres/Session.antt =====
-- The one connection of the program to Postgres (`*pgx.Conn`), with its transactions, and the host
-- of internal/imagestore over it. What S3, package uuid and package slices do stays a parameter.

use be_auction_lot.Prelude.{String, Option, List, [], map}
use be_auction_lot.Prelude.Int.{ℤ}
use be_auction_lot.Prelude.GoMap.{GoMap}
use be_auction_lot.AppError.{GoError, nil, plain}
use be_auction_lot.Outcome
use be_auction_lot.Outcome.{Outcome, ok, err, panic}
use be_auction_lot.Action.{Action}
use be_auction_lot.Filestore.{Uuid, GetMultiPartUploadItemRow}
use be_auction_lot.Filestore.Rows.{ResultSet, row}
use be_auction_lot.ImageStore.Types.{UploadFile, PresignedHttpRequest, S3Part, CompletedPart}
use be_auction_lot.ImageStore.Host.{Host}
use be_auction_lot.Postgres.{Tables, Counters, Work, Functions}
use be_auction_lot.Postgres.Attempts.{select_item}
use be_auction_lot.Postgres.Upserts.{upsert_multi_uploads, upsert_single_uploads}
use be_auction_lot.Postgres.Images.{insert_known_images}

-- No transaction; one with its tables; or one that a failed statement has spoilt.
pub data Transaction : Type 0 where
  idle : Transaction
  active : Tables → Transaction
  aborted : Transaction

pub record Db : Type 0 where
  pub committed : Tables
  pub transaction : Transaction
  pub counters : Counters

abbrev pub tx_closed : GoError
tx_closed = plain "tx is closed"

abbrev pub in_failed_transaction : GoError
in_failed_transaction = plain "current transaction is aborted"

abbrev pub commit_rolled_back : GoError
commit_rolled_back = plain "commit unexpectedly resulted in rollback"

-- `begin`; inside a transaction Postgres warns and goes on.
unfoldable pub begin_on : Transaction → Db → Outcome (Unit {0}) × Db
begin_on idle db = (ok tt, record db { transaction = active db.committed })
begin_on (active t) db = (ok tt, db)
begin_on aborted db = (err in_failed_transaction, db)

unfoldable pub commit_on : Transaction → Db → Outcome (Unit {0}) × Db
commit_on idle db = (err tx_closed, db)
commit_on (active t) db = (ok tt, record db { committed = t; transaction = idle })
commit_on aborted db = (err commit_rolled_back, record db { transaction = idle })

unfoldable pub rollback_on : Transaction → Db → Outcome (Unit {0}) × Db
rollback_on idle db = (err tx_closed, db)
rollback_on (active t) db = (ok tt, record db { transaction = idle })
rollback_on aborted db = (ok tt, record db { transaction = idle })

abbrev pub start : Tables → Counters → Work
start t c = record { tables = t; counters = c; touched = [] }

-- The end of a statement outside a transaction, where it is its own, and inside one.
abbrev pub settle : {A : Type 0} → Db → Outcome A × Work → Outcome A × Db
settle db (ok a, w) = (ok a, record db { committed = w.tables; counters = w.counters })
settle db (err e, w) = (err e, record db { counters = w.counters })
settle db (panic, w) = (panic, record db { counters = w.counters })

abbrev pub settle_in : {A : Type 0} → Db → Outcome A × Work → Outcome A × Db
settle_in db (ok a, w) = (ok a, record db { transaction = active w.tables; counters = w.counters })
settle_in db (err e, w) = (err e, record db { transaction = aborted; counters = w.counters })
settle_in db (panic, w) = (panic, record db { transaction = aborted; counters = w.counters })

-- A statement on the connection, which is the same for `Dbtx` either way.
unfoldable pub execute_on : {A : Type 0} → Action Work A → Transaction → Db → Outcome A × Db
execute_on m idle db = settle db (m (start db.committed db.counters))
execute_on m (active t) db = settle_in db (m (start t db.counters))
execute_on m aborted db = (err in_failed_transaction, db)

abbrev pub rows_of : {A : Type 0} → Outcome (List A) × Db → Outcome (ResultSet A) × Db
rows_of (r, db) =
    (Outcome.◌>>=◌ r (λ rows. ok (record { scans = map row rows; rows_err = nil })), db)

-- The tables that a read sees.
abbrev pub visible : Transaction → Db → Tables
visible idle db = db.committed
visible (active t) db = t
visible aborted db = db.committed

unfoldable pub select_on : ℤ → Transaction → Db → Outcome GetMultiPartUploadItemRow × Db
unfolding select_item
select_on id aborted db = (err in_failed_transaction, db)
select_on id t db = (select_item id (visible t db).attempts, db)

-- What is left of the host: S3 and its presigner with a state of their own, package uuid, the order
-- of a range over a map, and the sort of package slices.
pub record Cloud : Type 1 where
  pub Store : Type 0
  pub create_multipart_upload : String → String → Store → Outcome (Option String) × Store
  pub list_parts : String → String → Option String → Store → Outcome (List S3Part) × Store
  pub complete_multipart_upload :
      String → String → Option String → List CompletedPart → Store → Outcome (Unit {0}) × Store
  pub presign_put_object : String → String → String → Store → Outcome PresignedHttpRequest × Store
  pub presign_upload_part :
      String → String → ℤ → String → Store → Outcome PresignedHttpRequest × Store
  pub new_random : Store → Outcome Uuid × Store
  pub uuid_string : Uuid → String
  pub uuid_parse : String → Outcome Uuid
  pub range_files : Store → GoMap UploadFile → List (String × UploadFile)
  pub sort_func :
      (CompletedPart → CompletedPart → Outcome ℤ)
      → List CompletedPart
      → Outcome (List CompletedPart)

-- A step of one half of the world.
abbrev pub on_db : {A S : Type 0} → (Db → Outcome A × Db) → Db × S → Outcome A × (Db × S)
on_db f (db, s) = let (r, db') = f db in (r, (db', s))

abbrev pub on_store : {A S : Type 0} → (S → Outcome A × S) → Db × S → Outcome A × (Db × S)
on_store f (db, s) = let (r, s') = f s in (r, (db, s'))

module _ (f : Functions) (cloud : Cloud) where
  abbrev pub postgres_host : Host
  postgres_host = record {
    World = Db × cloud.Store;
    begin = on_db (λ db. begin_on db.transaction db);
    commit = on_db (λ db. commit_on db.transaction db);
    rollback = on_db (λ db. rollback_on db.transaction db);
    query_insert_identical =
        λ _ arg. on_db (λ db. rows_of (execute_on (insert_known_images f arg) db.transaction db));
    query_insert_single =
        λ _ arg. on_db (λ db. rows_of (execute_on (upsert_single_uploads f arg) db.transaction db));
    query_insert_multi =
        λ _ arg. on_db (λ db. rows_of (execute_on (upsert_multi_uploads f arg) db.transaction db));
    query_row_item = λ _ id. on_db (λ db. select_on id db.transaction db);
    create_multipart_upload = λ bucket key. on_store (cloud.create_multipart_upload bucket key);
    list_parts = λ bucket key id. on_store (cloud.list_parts bucket key id);
    complete_multipart_upload =
        λ bucket key id parts. on_store (cloud.complete_multipart_upload bucket key id parts);
    presign_put_object =
        λ bucket key checksum. on_store (cloud.presign_put_object bucket key checksum);
    presign_upload_part =
        λ bucket key part id. on_store (cloud.presign_upload_part bucket key part id);
    new_random = on_store cloud.new_random;
    uuid_string = cloud.uuid_string;
    uuid_parse = cloud.uuid_parse;
    range_files = λ w. cloud.range_files w.1;
    sort_func = cloud.sort_func;
  }
