-- ===== src/Filestore/Rows.antt =====
-- The loop `for rows.Next() { … rows.Scan(…) … }` of the generated queries. A result set is what
-- each `Scan` gives, in order, and the error that `rows.Err` reports at the end.
pub mod Laws
use be_auction_lot.Prelude.{ℕ, List, [], ◌∷◌, ◌++◌}
use be_auction_lot.Prelude.Int.{ℤ}
use be_auction_lot.Filestore.{Dbtx, Queries}
use be_auction_lot.AppError.{GoError, nil}
use be_auction_lot.Outcome.{Outcome, ok, err, ◌>>=◌}

pub data Scan (A : Type 0) : Type 0 where
  row : A → Scan A
  scan_error : GoError → Scan A

pub record ResultSet (A : Type 0) : Type 0 where
  pub scans : List (Scan A)
  pub rows_err : GoError

module _ {A : Type 0} where
  abbrev end_of_rows : List A → GoError → Outcome (List A)
  end_of_rows items nil = ok items
  end_of_rows items e = err e

  -- The loop, with the items so far.
  unfoldable pub collect_from : List A → List (Scan A) → GoError → Outcome (List A)
  collect_from items [] e = end_of_rows items e
  collect_from items (row i ∷ scans) e = collect_from (items ++ (i ∷ [])) scans e
  collect_from items (scan_error e' ∷ scans) e = err e'

  unfoldable pub collect_rows : ResultSet A → Outcome (List A)
  unfolding collect_from
  collect_rows rows = collect_from [] rows.scans rows.rows_err

-- file.sql.go
pub record CheckIdenticalBlobsRow : Type 0 where
  pub image_blob_id : ℤ
  pub sha256 : List ℕ

-- The query of `CheckIdenticalBlobs` and its loop, over what runs it.
unfoldable pub check_identical_blobs :
    {W : Type 0}
    → (Dbtx → W → Outcome (ResultSet CheckIdenticalBlobsRow) × W)
    → Queries
    → W
    → Outcome (List CheckIdenticalBlobsRow) × W
unfolding collect_rows
check_identical_blobs query q w = let (r, w') = query q.db w in (r >>= collect_rows, w')
