-- ===== src/Postgres/Attempts.antt =====
-- internal/database/filestore/file_insert.sql.go: the rows of image_blob_upload_attempts, with
-- what the statements read of them and change in one.
use be_auction_lot.Prelude.{
  ℕ, zero, suc, ◌+◌, String, Bool, false, ◌&&◌, Option, none, some, List, [], ◌∷◌, leb, str_eq,
  if◌then◌else◌,
}
use be_auction_lot.Prelude.Int.{ℤ, pos, negsuc, ◌-ℤ◌, ◌+ℤ◌, quot_ℤ, eqb_ℤ}
use be_auction_lot.AppError.{GoError, pg_error, err_no_rows}
use be_auction_lot.Outcome.{Outcome, ok, err}
use be_auction_lot.Filestore.{
  Uuid, uuid_eqb, multi_upload, single_upload, GetMultiPartUploadItemRow,
}
use be_auction_lot.Postgres.{pending, committed, ImageBlobUploadAttempt}

-- `interval '5 days'`, in seconds
abbrev pub five_days : ℕ
five_days = 432000

-- An error that names no constraint.
abbrev pub data_error : GoError
data_error = pg_error ""

abbrev pub no_such_lot : GoError
no_such_lot = pg_error "image_blob_upload_attempts_lot_id_fkey"

-- The generated column `part_count`: null for a single upload. The division by a part size of zero,
-- which is an error, is null too; the part size of the program is a constant.
unfoldable pub part_count : ImageBlobUploadAttempt → Option ℤ
unfolding quot_ℤ ◌+ℤ◌ ◌-ℤ◌
part_count a = elim a.upload_type [
  | multi_upload ↦ elim a.part_size [ none ↦ none | some p ↦ quot_ℤ (a.file_size +ℤ p -ℤ pos 1) p ]
  | single_upload ↦ none
]

-- `generate_series(start, start + n - 1, 1)`
unfoldable pub series : ℕ → ℕ → List ℤ
series start zero = []
series start (suc n) = pos start ∷ series (start + 1) n

-- `generate_series(1, part_count, 1)`
abbrev pub series_to : Option ℤ → List ℤ
series_to none = []
series_to (some (pos n)) = series 1 n
series_to (some (negsuc _)) = []

-- The predicate and the columns of the unique index.
unfoldable pub is_pending_for : String → Uuid → ImageBlobUploadAttempt → Bool
is_pending_for sha256 lot_id a = elim a.upload_state [
  | pending ↦ str_eq a.sha256 sha256 && uuid_eqb a.lot_id lot_id
  | committed ↦ false
]

-- The row that an insert conflicts with.
unfoldable pub find_pending :
    String → Uuid → List ImageBlobUploadAttempt → Option ImageBlobUploadAttempt
unfolding is_pending_for
find_pending sha256 lot_id [] = none
find_pending sha256 lot_id (a ∷ rest) =
    let later = find_pending sha256 lot_id rest in
    if is_pending_for sha256 lot_id a then some a else later

-- `do update`: the conflicting row is replaced.
unfoldable pub replace_pending :
    String
    → Uuid
    → ImageBlobUploadAttempt
    → List ImageBlobUploadAttempt
    → List ImageBlobUploadAttempt
unfolding is_pending_for
replace_pending sha256 lot_id new [] = []
replace_pending sha256 lot_id new (a ∷ rest) =
    let kept = a ∷ replace_pending sha256 lot_id new rest in
    if is_pending_for sha256 lot_id a then new ∷ rest else kept

-- `old.valid_until >= Now()`, false for a null
abbrev pub is_still_valid : ℕ → Option ℕ → Bool
is_still_valid now none = false
is_still_valid now (some t) = leb now t

-- The version of a row that an update sets to the values that it has. The trigger
-- `bump_row_version` runs before the update, when the generated `part_count` of `new` is not
-- computed and null: `new` and `old` are the same only if that of `old` is null too.
unfoldable pub rewritten_version : ImageBlobUploadAttempt → ℕ
unfolding part_count
rewritten_version a = elim (part_count a) [ none ↦ a.version | some _ ↦ a.version + 1 ]

-- The row behind such an update.
abbrev pub rewritten : ImageBlobUploadAttempt → ImageBlobUploadAttempt
rewritten a = record a { version = rewritten_version a }

-- The `set` of the multipart upsert: a row that is still valid keeps its values.
unfoldable pub renewed : ℤ → ℕ → ImageBlobUploadAttempt → ImageBlobUploadAttempt
unfolding rewritten_version
renewed part_size now a = if is_still_valid now a.valid_until then rewritten a else record a {
  part_size = some part_size;
  valid_until = some (now + five_days);
  version = a.version + 1;
}

-- The statement of `GetMultiPartUploadItem`.
unfoldable pub select_item : ℤ → List ImageBlobUploadAttempt → Outcome GetMultiPartUploadItemRow
unfolding part_count eqb_ℤ
select_item id [] = err err_no_rows
select_item id (a ∷ rest) =
    let later = select_item id rest in
    if eqb_ℤ a.image_blob_upload_attempt_id id
    then ok
        (record { upload_id = a.upload_id; storage_key = a.storage_key; part_count = part_count a })
    else later
