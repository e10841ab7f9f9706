-- ===== src/Tests/Database.antt =====
-- The connection to Postgres at concrete inputs: a database with one lot, empty or with one attempt.
use mathlib.Core.List.{Perm}
use mathlib.Core.List.Perm
use be_auction_lot.Prelude.{
  not, ◌||◌, String, Bool, true, Option, none, some, false, List, [], ◌∷◌, ◌+◌, ◌≡◌, refl,
  if◌then◌else◌, str_eq, ◌<◌, ◌↔◌, arith,
}
use be_auction_lot.Outcome.{panic, Outcome, ok}
use be_auction_lot.ImageStore.Batch.{segregate_multi_upload_files}
use be_auction_lot.Postgres.Mixed.{upsert_multi-panics}
use be_auction_lot.Postgres.Upserts.{
  new_multi, MultiInput, SingleInput, unnest_multi, unnest_single, upsert_multi, upsert_single,
  upsert_multi_on, upsert_single_on, multi_row, add_attempt, put_attempt, was_touched, check_lot,
  has_lot, upsert_multi_uploads, upsert_single_uploads,
}
use be_auction_lot.Encoding.{decode_string}
use be_auction_lot.ImageStore.Types.{UploadFileRequestResult, part_size}
use be_auction_lot.ImageStore.Upload.Answers.{answered}
use be_auction_lot.Postgres.Images.{insert_known_images}
use be_auction_lot.Postgres.Session.{
  begin_on, commit_on, execute_on, Cloud, Db, idle, start, postgres_host,
}
use be_auction_lot.Postgres.Answers.{initiate_upload-answers_all}
use be_auction_lot.Prelude.Int.{pos, int32_of_uint, two_31}
use be_auction_lot.Action.{for_each}
use be_auction_lot.Action.Rounds.{Rounds}
use be_auction_lot.Filestore.{
  uuid, multi_upload, single_upload, InsertAndValidateMultiPartUploadParams,
  InsertAndValidateMultiPartUploadRow, InsertSinglePartUploadParams, InsertSinglePartUploadRow,
}
use be_auction_lot.ImageStore.Host.{State}
use be_auction_lot.ImageStore.Upload.{initiate_upload}
use be_auction_lot.ImageStore.Upload.Laws.{IsFailure}
use be_auction_lot.Postgres.{Tables, Counters, Work, Functions, ImageBlobUploadAttempt, Lot}
use be_auction_lot.Postgres.Attempts.{
  series, part_count, find_pending, is_pending_for, renewed, replace_pending,
}
use be_auction_lot.Postgres.Index.{IsIndexed}
use be_auction_lot.Postgres.Abstract.{Pending, Shows}
use be_auction_lot.Postgres.Contract.{MultiRound, SingleRound}
use be_auction_lot.Postgres.Contract.Laws.{
  upsert_multi_uploads-refines, upsert_single_uploads-refines,
}
use be_auction_lot.Postgres.Atomic.{initiate_upload-atomic}
use be_auction_lot.Postgres.Invariant.{HasIndex, initiate_upload-HasIndex}
use be_auction_lot.Postgres.PartCount.{parts_needed, upsert_multi-parts_iff}
use be_auction_lot.Postgres.Resume.{Resumes, upsert_multi-Resumes}
use be_auction_lot.Tests.InsertionSort.{sort_by}
use be_auction_lot.Tests.World.{signed_url, parse_uuid, queries, three_files}

-- One hash in two spellings; other texts are their own.
abbrev pub functions : Functions
functions = record {
  canonical = λ s. if str_eq s "" then none else if str_eq s "BB" then some "bb" else some s;
  random_uuid = λ n. uuid (100 + n);
}

abbrev pub cloud : Cloud
cloud = record {
  Store = Unit {0};
  create_multipart_upload = λ _ _ w. (ok (some "upload"), w);
  list_parts = λ _ _ _ w. (ok [], w);
  complete_multipart_upload = λ _ _ _ _ w. (ok tt, w);
  presign_put_object = λ _ _ _ w. (ok signed_url, w);
  presign_upload_part = λ _ _ _ _ w. (ok signed_url, w);
  new_random = λ w. (ok (uuid 5), w);
  uuid_string = λ _. "key";
  uuid_parse = parse_uuid;
  range_files = λ _ m. m;
  sort_func = sort_by;
}

abbrev pub counters : Counters
counters = record { attempt_ids = 0; image_ids = 0; uuids = 0; now = 1000 }

abbrev pub some_lot : Lot
some_lot = record {
  id = uuid 5;
  title = "Vase";
  description = "blue";
  category = none;
  bid_opening_price = none;
}

abbrev pub tables : Tables
tables = record { attempts = []; blobs = []; images = []; lots = some_lot ∷ [] }

abbrev pub database : Db
database = record { committed = tables; transaction = idle; counters = counters }

abbrev pub connected : State (postgres_host functions cloud)
connected = record { world = (database, tt); log = [] }

initiate_upload-atomic_example :
    ((initiate_upload
        (postgres_host functions cloud)
        queries
        three_files
        "lot"
        connected).1.world.0.transaction
      ≡ idle)
    × (IsFailure
          (initiate_upload (postgres_host functions cloud) queries three_files "lot" connected).0
        → (initiate_upload
            (postgres_host functions cloud)
            queries
            three_files
            "lot"
            connected).1.world.0.committed
          ≡ tables)
initiate_upload-atomic_example =
    initiate_upload-atomic functions cloud queries three_files "lot" connected refl

initiate_upload-HasIndex_example :
    HasIndex
      (initiate_upload
        (postgres_host functions cloud)
        queries
        three_files
        "lot"
        connected).1.world.0
initiate_upload-HasIndex_example =
    initiate_upload-HasIndex functions cloud queries three_files "lot" connected (tt, tt)

abbrev multi_arg : InsertAndValidateMultiPartUploadParams
multi_arg = record {
  upload_type = multi_upload;
  part_size = pos part_size;
  lot_id = uuid 5;
  username = "user";
  sha256s = "BB" ∷ ("cc" ∷ []);
  file_sizes = pos 200000000 ∷ (pos 300000000 ∷ []);
  content_types = "image/jpeg" ∷ ("image/jpeg" ∷ []);
  upload_ids = "u1" ∷ ("u2" ∷ []);
  file_names = "b.jpg" ∷ ("c.jpg" ∷ []);
  storage_keys = uuid 1 ∷ (uuid 2 ∷ []);
}

abbrev single_arg : InsertSinglePartUploadParams
single_arg = record {
  upload_type = single_upload;
  lot_id = uuid 5;
  username = "user";
  sha256s = "aa" ∷ ("BB" ∷ []);
  file_sizes = pos 1000 ∷ (pos 2000 ∷ []);
  content_types = "image/jpeg" ∷ ("image/jpeg" ∷ []);
  files_names = "a.jpg" ∷ ("b.jpg" ∷ []);
}

abbrev first_input : MultiInput
first_input = record {
  sha256 = "BB";
  file_size = pos 200000000;
  content_type = "image/jpeg";
  upload_id = some "u1";
  file_name = some "b.jpg";
  storage_key = uuid 1;
}

-- The same file with the hash in the other spelling, and an upload of its own.
abbrev second_input : MultiInput
second_input = record {
  sha256 = "bb";
  file_size = pos 200000000;
  content_type = "image/jpeg";
  upload_id = some "u9";
  file_name = some "again.jpg";
  storage_key = uuid 9;
}

-- The rows of a statement that ends well.
abbrev rows_in : {A : Type 0} → Outcome (List A) → List A
rows_in (ok rows) = rows
rows_in _ = []

abbrev before : Work
before = start tables counters

abbrev no_pending : Pending
no_pending = record { find = λ _ _. none; counters = counters }

-- The row of one upsert that ends well.
abbrev no_row : InsertAndValidateMultiPartUploadRow
no_row = record {
  part_size = none;
  image_blob_upload_attempt_id = pos 0;
  sha256 = "";
  storage_key = uuid 0;
  upload_id = none;
  parts = [];
  is_inserted = false;
  is_valid = false;
}

abbrev row_in : Outcome InsertAndValidateMultiPartUploadRow → InsertAndValidateMultiPartUploadRow
row_in (ok r) = r
row_in _ = no_row

abbrev first_run : Outcome InsertAndValidateMultiPartUploadRow × Work
first_run = upsert_multi functions multi_arg first_input before

-- The second request, in a statement of its own.
abbrev between : Work
between = start first_run.1.tables first_run.1.counters

-- The attempts that are pending behind the first one.
abbrev one_pending : Pending
one_pending = record {
  find = λ h l. find_pending h l between.tables.attempts;
  counters = between.counters;
}

abbrev multi_run : Outcome (List InsertAndValidateMultiPartUploadRow) × Work
multi_run = upsert_multi_uploads functions multi_arg between

upsert_multi_uploads-refines_example :
    (inputs : List MultiInput) × (p' : Pending) × (unnest_multi multi_arg.sha256s
        multi_arg.file_sizes multi_arg.content_types multi_arg.upload_ids multi_arg.file_names
        multi_arg.storage_keys
      ≡ some inputs)
    × Rounds (MultiRound functions multi_arg) one_pending inputs (rows_in multi_run.0) p'
    × Shows multi_run.1 p'
    × (IsIndexed between.tables.attempts → IsIndexed multi_run.1.tables.attempts)
unfolding upsert_multi_uploads unnest_multi upsert_multi upsert_multi_on find_pending multi_row
    add_attempt put_attempt replace_pending renewed was_touched for_each check_lot has_lot
    is_pending_for part_count series
upsert_multi_uploads-refines_example =
    upsert_multi_uploads-refines functions multi_arg between (rows_in multi_run.0) multi_run.1
      one_pending ((λ _ _. refl), refl) refl

abbrev single_run : Outcome (List InsertSinglePartUploadRow) × Work
single_run = upsert_single_uploads functions single_arg before

upsert_single_uploads-refines_example :
    (inputs : List SingleInput) × (p' : Pending) × (unnest_single single_arg.sha256s
        single_arg.file_sizes single_arg.content_types single_arg.files_names
      ≡ some inputs)
    × Rounds (SingleRound functions single_arg) no_pending inputs (rows_in single_run.0) p'
    × Shows single_run.1 p'
    × (IsIndexed [] → IsIndexed single_run.1.tables.attempts)
unfolding upsert_single_uploads unnest_single upsert_single upsert_single_on find_pending
    add_attempt for_each check_lot has_lot is_pending_for
upsert_single_uploads-refines_example =
    upsert_single_uploads-refines functions single_arg before (rows_in single_run.0) single_run.1
      no_pending ((λ _ _. refl), refl) refl

upsert_multi-parts_iff_example :
    ((row_in first_run.0).parts ≡ series 1 (parts_needed 200000000)) ↔ (200000000 < two_31)
unfolding upsert_multi upsert_multi_on find_pending multi_row add_attempt int32_of_uint
upsert_multi-parts_iff_example =
    upsert_multi-parts_iff functions multi_arg first_input 200000000 before first_run.1
      (row_in first_run.0) refl refl refl (omega arith) refl refl

abbrev second_run : Outcome InsertAndValidateMultiPartUploadRow × Work
second_run = upsert_multi functions multi_arg second_input between

upsert_multi-Resumes_example : Resumes (row_in first_run.0) (row_in second_run.0)
unfolding upsert_multi upsert_multi_on find_pending multi_row add_attempt is_pending_for renewed
    was_touched put_attempt replace_pending
upsert_multi-Resumes_example =
    upsert_multi-Resumes functions multi_arg multi_arg first_input second_input before first_run.1
      between second_run.1 (row_in first_run.0) (row_in second_run.0) refl refl refl refl refl

-- The hashes that are written as the functions above write them.
abbrev is_canonical : String → Bool
is_canonical s = not (str_eq s "" || str_eq s "BB")

is_canonical_lem : (h : String) → is_canonical h ≡ true → functions.canonical h ≡ some h
is_canonical_lem h e = ground arith

abbrev no_result : UploadFileRequestResult
no_result = record { duplicate_files = []; already_uploaded_files = []; presigned_file_urls = [] }

abbrev result_in : Outcome UploadFileRequestResult → UploadFileRequestResult
result_in (ok r) = r
result_in _ = no_result

abbrev uploaded : UploadFileRequestResult
uploaded =
    result_in
      (initiate_upload (postgres_host functions cloud) queries three_files "lot" connected).0

initiate_upload-answers_all_example : Perm (answered uploaded) three_files
unfolding initiate_upload decode_string begin_on commit_on execute_on insert_known_images
    int32_of_uint upsert_single_uploads upsert_multi_uploads
initiate_upload-answers_all_example =
    initiate_upload-answers_all functions cloud is_canonical is_canonical_lem queries three_files
      "lot" connected uploaded (λ _ m. Perm.refl m) (refl, (refl, (refl, tt))) refl

-- Behind the single insert, which has left an attempt for the hash of the large file.
abbrev mixed : Work
mixed = start single_run.1.tables single_run.1.counters

abbrev mixed_run : Outcome InsertAndValidateMultiPartUploadRow × Work
mixed_run = upsert_multi functions multi_arg first_input mixed

abbrev attempt_in : Option ImageBlobUploadAttempt → ImageBlobUploadAttempt
attempt_in none = new_multi multi_arg first_input "" counters
attempt_in (some a) = a

upsert_multi-panics_example :
    segregate_multi_upload_files (λ _. "key") (row_in mixed_run.0 ∷ []) ≡ panic
unfolding upsert_single_uploads upsert_multi multi_row
upsert_multi-panics_example =
    upsert_multi-panics (λ _. "key") functions multi_arg first_input "bb"
      (attempt_in (find_pending "bb" (uuid 5) mixed.tables.attempts)) mixed mixed_run.1
      (row_in mixed_run.0) [] refl refl refl refl
