-- ===== src/Tests/World.antt =====
-- Libraries and services with fixed answers, and data, for the tests.
use be_auction_lot.Prelude.{
  zero, String, Bool, true, false, Option, none, some, List, [], ◌∷◌, if◌then◌else◌, str_eq, map,
  ◌++◌,
}
use be_auction_lot.Prelude.Int.{ℤ, pos}
use be_auction_lot.AppError.{
  GoError, nil, plain, app, wrapped, joined, more_errors, no_errors, AppError, app_error,
  FieldError, code_invalid_argument, code_not_found, Details, Status,
}
use be_auction_lot.Outcome.{Outcome, ok, err}
use be_auction_lot.Filestore.{
  Uuid, uuid, Queries, GetMultiPartUploadItemRow, InsertAndValidateMultiPartUploadRow, conn,
}
use be_auction_lot.Filestore.Rows.{Scan, row, ResultSet}
use be_auction_lot.ImageStore.Types.{
  UploadFile, PresignedHttpRequest, S3Part, CompletedPart, ImageEtag, UploadIdentity, ExtractFile,
}
use be_auction_lot.ImageStore.Extract.{add_single, add_multipart, empty_single, empty_multipart}
use be_auction_lot.ImageStore.Host.{Host, State}
use be_auction_lot.Tests.InsertionSort.{sort_by}

abbrev pub signed_url : PresignedHttpRequest
signed_url = record { url = "https://s3"; method = "PUT"; signed_header = [] }

-- Parts 1 and 2 are on S3.
abbrev pub two_listed : List S3Part
two_listed =
    record { etag = some "e1"; part_number = some (pos 1) }
    ∷ (record { etag = some "e2"; part_number = some (pos 2) } ∷ [])

-- The attempt with the id 0 is that of a small file, every other has as many parts as its id says.
abbrev pub count_of : ℤ → Option ℤ
count_of (pos zero) = none
count_of n = some n

abbrev pub item_of : ℤ → GetMultiPartUploadItemRow
item_of id = record { upload_id = some "upload"; storage_key = uuid 1; part_count = count_of id }

-- A row for each hash, inserted anew.
abbrev pub row_for : String → InsertAndValidateMultiPartUploadRow
row_for sha256 = record {
  part_size = some (pos 10485760);
  image_blob_upload_attempt_id = pos 1;
  sha256 = sha256;
  storage_key = uuid 1;
  upload_id = some "upload";
  parts = pos 1 ∷ (pos 2 ∷ []);
  is_inserted = true;
  is_valid = true;
}

abbrev pub new_row : String → Scan InsertAndValidateMultiPartUploadRow
new_row sha256 = row (row_for sha256)

abbrev pub no_rows : {A : Type 0} → ResultSet A
no_rows = record { scans = []; rows_err = nil }

abbrev pub parse_uuid : String → Outcome Uuid
parse_uuid s = if str_eq s "" then err (plain "invalid UUID length: 0") else ok (uuid 5)

-- S3 refuses to complete uploads; everything else succeeds.
abbrev pub fixed_host : Host
fixed_host = record {
  World = Unit {0};
  begin = λ w. (ok tt, w);
  commit = λ w. (ok tt, w);
  rollback = λ w. (ok tt, w);
  query_insert_identical = λ _ _ w. (ok no_rows, w);
  query_insert_single = λ _ _ w. (ok no_rows, w);
  query_insert_multi =
      λ _ params w. (ok (record { scans = map new_row params.sha256s; rows_err = nil }), w);
  query_row_item = λ _ id w. (ok (item_of id), w);
  create_multipart_upload = λ _ _ w. (ok (some "upload"), w);
  list_parts = λ _ _ _ w. (ok two_listed, w);
  complete_multipart_upload = λ _ _ _ _ w. (err (plain "InvalidPart"), w);
  presign_put_object = λ _ _ _ w. (ok signed_url, w);
  presign_upload_part = λ _ _ _ _ w. (ok signed_url, w);
  new_random = λ w. (ok (uuid 5), w);
  uuid_string = λ _. "key";
  uuid_parse = parse_uuid;
  range_files = λ _ m. m;
  sort_func = sort_by;
}

abbrev pub fresh : State fixed_host
fresh = record { world = tt; log = [] }

abbrev pub queries : Queries
queries = record { db = conn }

abbrev pub small_file : UploadFile
small_file = record { sha256 = "aa"; file_name = "a.jpg"; client_file_id = "1"; file_size = 1000 }

-- The same image again.
abbrev pub same_file : UploadFile
same_file = record { sha256 = "aa"; file_name = "b.jpg"; client_file_id = "2"; file_size = 1000 }

-- 3 GiB
abbrev pub large_file : UploadFile
large_file = record {
  sha256 = "bb";
  file_name = "c.jpg";
  client_file_id = "3";
  file_size = 3221225472;
}

abbrev pub three_files : List UploadFile
three_files = small_file ∷ (same_file ∷ (large_file ∷ []))

-- What is extracted from the three files.
abbrev pub extracted : ExtractFile
extracted = record {
  single_file = add_single same_file (add_single small_file empty_single);
  multipart_file = add_multipart large_file (uuid 5) "upload" empty_multipart;
}

abbrev pub part : ℤ → CompletedPart
part n = record { etag = some "e"; part_number = some n }

-- The parts of a client, out of order.
abbrev pub two_parts : List CompletedPart
two_parts = part (pos 2) ∷ (part (pos 1) ∷ [])

abbrev pub two_sorted : List CompletedPart
two_sorted = part (pos 1) ∷ (part (pos 2) ∷ [])

abbrev pub two_etags : List ImageEtag
two_etags =
    record { etag = "e1"; part_number = pos 1 } ∷ (record { etag = "e2"; part_number = pos 2 } ∷ [])

abbrev pub identity : UploadIdentity
identity = record { storage_key = "key"; upload_id = "upload" }

-- A multipart upload that was inserted anew, and one that is resumed.
abbrev pub upload_row : Bool → InsertAndValidateMultiPartUploadRow
upload_row is_inserted = record {
  part_size = some (pos 10485760);
  image_blob_upload_attempt_id = pos 1;
  sha256 = "bb";
  storage_key = uuid 1;
  upload_id = some "upload";
  parts = pos 1 ∷ (pos 2 ∷ []);
  is_inserted = is_inserted;
  is_valid = true;
}

-- `WithDetails` as documented.
abbrev pub appending : Status → Details → Option Status
appending s d = some (record s { details = s.details ++ (d ∷ []) })

abbrev pub no_status : GoError → Bool
no_status _ = false

abbrev pub field_errors : List FieldError
field_errors = record { field = "lotId"; description = "lotId could not be parsed as uuid" } ∷ []

-- A client error, wrapped, joined with another.
abbrev pub bad_argument : AppError
bad_argument =
    app_error "op" code_invalid_argument "unknown lotId" field_errors (plain "cause") false true

abbrev pub two_client_errors : GoError
two_client_errors = joined (
    more_errors (wrapped "while uploading: " (app bad_argument) "")
      (more_errors (app (app_error "op" code_not_found "no attempt" [] nil false true)) no_errors))
