-- ===== src/Postgres/Upserts.antt =====
-- internal/database/filestore/file_insert.sql.go: the two upserts into image_blob_upload_attempts.
mod Inputs
pub use Inputs.{MultiInput, SingleInput}
unfoldable pub use Inputs.{first_of, rest_of, unnest_multi, unnest_single}
use be_auction_lot.Prelude.{
  ℕ, ◌+◌, String, Bool, true, false, ◌&&◌, ◌||◌, not, Option, none, some, List, [], ◌∷◌, ◌++◌,
  str_eq, if◌then◌else◌,
}
use be_auction_lot.Prelude.Int.{ℤ, pos}
use be_auction_lot.Outcome.{Outcome, ok, err}
use be_auction_lot.Action.{Action, ◌>>=◌, ◌>>◌, lift, return, for_each}
use be_auction_lot.Filestore.{
  Uuid, uuid_eqb, InsertAndValidateMultiPartUploadParams, InsertAndValidateMultiPartUploadRow,
  InsertSinglePartUploadParams, InsertSinglePartUploadRow,
}
use be_auction_lot.Postgres.{pending, ImageBlobUploadAttempt, Lot, Counters, Work, Functions}
use be_auction_lot.Postgres.Attempts.{
  five_days, data_error, no_such_lot, part_count, series, series_to, find_pending, replace_pending,
  is_still_valid, rewritten_version, rewritten, renewed,
}

-- A text that another row of the same statement has written.
unfoldable pub was_touched : String → List String → Bool
was_touched sha256 [] = false
was_touched sha256 (t ∷ ts) = str_eq t sha256 || was_touched sha256 ts

abbrev pub or_data_error : {A : Type 0} → Option A → Outcome A
or_data_error none = err data_error
or_data_error (some a) = ok a

-- The foreign key on `lots`, which is checked behind the statement if it has inserted a row.
unfoldable pub has_lot : Uuid → List Lot → Bool
has_lot lot_id [] = false
has_lot lot_id (l ∷ ls) = uuid_eqb l.id lot_id || has_lot lot_id ls

unfoldable pub check_lot : Uuid → Bool → Action Work (Unit {0})
unfolding has_lot
check_lot lot_id inserted w =
    if inserted && not (has_lot lot_id w.tables.lots) then (err no_such_lot, w) else (ok tt, w)

-- The defaults of a row that is to be inserted are computed before a conflict is found, and are not
-- given back. A random uuid that the row does not need is skipped.
abbrev pub use_defaults : Counters → Counters
use_defaults c = record c { attempt_ids = c.attempt_ids + 1; uuids = c.uuids + 1 }

-- A new row at the end of the table, under the next id.
unfoldable pub add_attempt : String → ImageBlobUploadAttempt → Work → Work
add_attempt sha256 a w = record w {
  tables = record w.tables { attempts = w.tables.attempts ++ (a ∷ []) };
  counters = use_defaults w.counters;
  touched = sha256 ∷ w.touched;
}

-- The row that stands in the way takes new values.
unfoldable pub put_attempt : String → Uuid → ImageBlobUploadAttempt → Work → Work
unfolding replace_pending
put_attempt sha256 lot_id a w = record w {
  tables = record w.tables { attempts = replace_pending sha256 lot_id a w.tables.attempts };
  counters = use_defaults w.counters;
  touched = sha256 ∷ w.touched;
}

-- `returning`, with `old`, null for an inserted row.
unfoldable pub multi_row :
    ℕ → Option ImageBlobUploadAttempt → ImageBlobUploadAttempt → InsertAndValidateMultiPartUploadRow
unfolding part_count series
multi_row now old a = record {
  part_size = a.part_size;
  image_blob_upload_attempt_id = a.image_blob_upload_attempt_id;
  sha256 = a.sha256;
  storage_key = a.storage_key;
  upload_id = a.upload_id;
  parts = series_to (part_count a);
  is_inserted = elim old [ none ↦ true | some _ ↦ false ];
  is_valid = elim old [ none ↦ false | some o ↦ is_still_valid now o.valid_until ];
}

abbrev pub single_row :
    Option ImageBlobUploadAttempt → ImageBlobUploadAttempt → InsertSinglePartUploadRow
single_row old a = record {
  sha256 = a.sha256;
  storage_key = a.storage_key;
  is_inserted = elim old [ none ↦ true | some _ ↦ false ];
}

abbrev pub new_multi :
    InsertAndValidateMultiPartUploadParams → MultiInput → String → Counters → ImageBlobUploadAttempt
new_multi arg i sha256 c = record {
  image_blob_upload_attempt_id = pos (c.attempt_ids + 1);
  sha256 = sha256;
  file_size = i.file_size;
  content_type = i.content_type;
  upload_type = arg.upload_type;
  upload_id = i.upload_id;
  part_size = some arg.part_size;
  lot_id = arg.lot_id;
  file_name = i.file_name;
  storage_key = i.storage_key;
  username = arg.username;
  upload_state = pending;
  version = 0;
  valid_until = some (c.now + five_days);
  verified = some false;
}

module _ (f : Functions) where
  -- The defaults of the columns that the single insert leaves out.
  abbrev pub new_single :
      InsertSinglePartUploadParams → SingleInput → String → Counters → ImageBlobUploadAttempt
  new_single arg i sha256 c = record {
    image_blob_upload_attempt_id = pos (c.attempt_ids + 1);
    sha256 = sha256;
    file_size = i.file_size;
    content_type = i.content_type;
    upload_type = arg.upload_type;
    upload_id = none;
    part_size = none;
    lot_id = arg.lot_id;
    file_name = i.file_name;
    storage_key = f.random_uuid c.uuids;
    username = arg.username;
    upload_state = pending;
    version = 0;
    valid_until = some (c.now + five_days);
    verified = some false;
  }

  -- A row of the multipart upsert, by the row it conflicts with. A second conflict with a row that
  -- the statement has written itself is an error.
  unfoldable pub upsert_multi_on :
      InsertAndValidateMultiPartUploadParams
      → MultiInput
      → String
      → Option ImageBlobUploadAttempt
      → Action Work InsertAndValidateMultiPartUploadRow
  unfolding multi_row renewed add_attempt put_attempt was_touched
  upsert_multi_on arg i sha256 none w =
      let a = new_multi arg i sha256 w.counters in
      (ok (multi_row w.counters.now none a), add_attempt sha256 a w)
  upsert_multi_on arg i sha256 (some old) w =
      let a = renewed arg.part_size w.counters.now old in
      if was_touched sha256 w.touched
      then (err data_error, record w { counters = use_defaults w.counters })
      else (ok (multi_row w.counters.now (some old) a), put_attempt sha256 arg.lot_id a w)

  unfoldable pub upsert_multi :
      InsertAndValidateMultiPartUploadParams
      → MultiInput
      → Action Work InsertAndValidateMultiPartUploadRow
  unfolding upsert_multi_on find_pending
  upsert_multi arg i = do
    sha256 ← lift (or_data_error (f.canonical i.sha256))
    λ w. upsert_multi_on arg i sha256 (find_pending sha256 arg.lot_id w.tables.attempts) w

  -- A row of the single upsert, whose `set` changes no column.
  unfoldable pub upsert_single_on :
      InsertSinglePartUploadParams
      → SingleInput
      → String
      → Option ImageBlobUploadAttempt
      → Action Work InsertSinglePartUploadRow
  unfolding add_attempt put_attempt was_touched rewritten_version
  upsert_single_on arg i sha256 none w =
      let a = new_single arg i sha256 w.counters in (ok (single_row none a), add_attempt sha256 a w)
  upsert_single_on arg i sha256 (some old) w =
      let a = rewritten old in
      if was_touched sha256 w.touched
      then (err data_error, record w { counters = use_defaults w.counters })
      else (ok (single_row (some old) a), put_attempt sha256 arg.lot_id a w)

  unfoldable pub upsert_single :
      InsertSinglePartUploadParams → SingleInput → Action Work InsertSinglePartUploadRow
  unfolding upsert_single_on find_pending
  upsert_single arg i = do
    sha256 ← lift (or_data_error (f.canonical i.sha256))
    λ w. upsert_single_on arg i sha256 (find_pending sha256 arg.lot_id w.tables.attempts) w

  abbrev pub any_multi : List InsertAndValidateMultiPartUploadRow → Bool
  any_multi [] = false
  any_multi (r ∷ rs) = r.is_inserted || any_multi rs

  abbrev pub any_single : List InsertSinglePartUploadRow → Bool
  any_single [] = false
  any_single (r ∷ rs) = r.is_inserted || any_single rs

  -- The statement of `InsertAndValidateMultiPartUpload`.
  unfoldable pub upsert_multi_uploads :
      InsertAndValidateMultiPartUploadParams
      → Action Work (List InsertAndValidateMultiPartUploadRow)
  unfolding unnest_multi upsert_multi for_each check_lot
  upsert_multi_uploads arg = do
    inputs ← lift (
        or_data_error (
          unnest_multi arg.sha256s arg.file_sizes arg.content_types arg.upload_ids arg.file_names
            arg.storage_keys))
    rows ← for_each (upsert_multi arg) inputs
    check_lot arg.lot_id (any_multi rows)
    return rows

  -- The statement of `InsertSinglePartUpload`.
  unfoldable pub upsert_single_uploads :
      InsertSinglePartUploadParams → Action Work (List InsertSinglePartUploadRow)
  unfolding unnest_single upsert_single for_each check_lot
  upsert_single_uploads arg = do
    inputs ←
        lift (
          or_data_error
            (unnest_single arg.sha256s arg.file_sizes arg.content_types arg.files_names))
    rows ← for_each (upsert_single arg) inputs
    check_lot arg.lot_id (any_single rows)
    return rows
