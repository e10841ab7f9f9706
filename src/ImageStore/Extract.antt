-- ===== src/ImageStore/Extract.antt =====
-- internal/imagestore/image_upload.go: `extractFileData`, which splits the files by size into the
-- columns of two inserts, and opens a multipart upload for each large file.
pub mod Laws
pub mod Total
use be_auction_lot.Prelude.{ℕ, String, List, [], ◌∷◌, ◌++◌, ltb, if◌then◌else◌, none, some, Option}
use be_auction_lot.Prelude.Int.{ℤ, int32_of_uint}
use be_auction_lot.Prelude.GoMap.{GoMap, insert}
use be_auction_lot.AppError.{GoError, app, internal_server_error, wrapped}
use be_auction_lot.Outcome
use be_auction_lot.Outcome.{Outcome, ok, deref}
use be_auction_lot.Action.{Action, ◌>>=◌, lift, return, or_fail}
use be_auction_lot.Filestore.{Uuid}
use be_auction_lot.ImageStore.Types.{
  UploadFile, SingleFileData, MultipartFileData, ExtractFile, multipart_threshold, bucket_name,
}
use be_auction_lot.ImageStore.Host.{Host, Run, call, drew_random, created_multipart}
use be_auction_lot.ImageStore.Failures.{internal_failure}

abbrev pub empty_single : SingleFileData
empty_single = record {
  single_file_uploads = [];
  single_part_file_sha256s = [];
  single_part_file_sizes = [];
  single_part_file_content_types = [];
  single_part_file_names = [];
}

abbrev pub empty_multipart : MultipartFileData
empty_multipart = record {
  multi_file_upload_map = [];
  multipart_file_sha256s = [];
  multipart_file_sizes = [];
  multipart_file_content_types = [];
  multipart_file_names = [];
  multipart_file_storage_keys = [];
  multipart_file_upload_ids = [];
}

abbrev pub empty_extract : ExtractFile
empty_extract = record { single_file = empty_single; multipart_file = empty_multipart }

-- The appends of the branch for small files.
unfoldable pub add_single : UploadFile → SingleFileData → SingleFileData
add_single file d = record {
  single_file_uploads = d.single_file_uploads ++ (file ∷ []);
  single_part_file_sha256s = d.single_part_file_sha256s ++ (file.sha256 ∷ []);
  single_part_file_sizes = d.single_part_file_sizes ++ (int32_of_uint file.file_size ∷ []);
  single_part_file_content_types = d.single_part_file_content_types ++ ("image/jpeg" ∷ []);
  single_part_file_names = d.single_part_file_names ++ (file.file_name ∷ []);
}

-- The appends of the branch for large files.
unfoldable pub add_multipart : UploadFile → Uuid → String → MultipartFileData → MultipartFileData
add_multipart file key upload_id d = record {
  multi_file_upload_map = insert file.sha256 file d.multi_file_upload_map;
  multipart_file_sha256s = d.multipart_file_sha256s ++ (file.sha256 ∷ []);
  multipart_file_sizes = d.multipart_file_sizes ++ (int32_of_uint file.file_size ∷ []);
  multipart_file_content_types = d.multipart_file_content_types ++ ("image/jpeg" ∷ []);
  multipart_file_names = d.multipart_file_names ++ (file.file_name ∷ []);
  multipart_file_storage_keys = d.multipart_file_storage_keys ++ (key ∷ []);
  multipart_file_upload_ids = d.multipart_file_upload_ids ++ (upload_id ∷ []);
}

-- `uuid.MustParse`
abbrev pub must_parse : Outcome Uuid → Outcome Uuid
must_parse (ok u) = ok u
must_parse _ = Outcome.panic

module _ (H : Host) where
  -- `uuid.NewRandom`
  unfoldable pub draw_uuid : Run H Uuid
  unfolding call internal_server_error
  draw_uuid = or_fail (call H drew_random H.new_random) (λ e. app (
      internal_server_error "fileupload.makeUUIDText" (wrapped "cannot generate uuid:" e "")
        "internal error"))

  unfoldable pub make_uuid_text : Run H String
  unfolding draw_uuid
  make_uuid_text = do uuid ← draw_uuid; return (H.uuid_string uuid)

  -- `CreateMultipartUpload`
  unfoldable pub create_upload : String → Run H (Option String)
  unfolding call internal_failure
  create_upload object_key =
      or_fail
        (call H (created_multipart object_key) (H.create_multipart_upload bucket_name object_key))
        (internal_failure "fileupload.generateMultiPartUploadId"
          "creation of multipart upload failed:" "internal error")

  unfoldable pub generate_multi_part_upload_id : String → Run H String
  unfolding create_upload
  generate_multi_part_upload_id object_key = do
    upload_id ← create_upload object_key
    lift (deref upload_id)

  -- The uuid of a large file as text.
  unfoldable pub generated_key : Run H String
  unfolding make_uuid_text internal_failure
  generated_key =
      or_fail make_uuid_text
        (internal_failure "fileupload.extractFileData" "cannot generate uuid:" "internal error")

  -- The storage key and the upload id of a large file.
  unfoldable pub open_multipart : Run H (Uuid × String)
  unfolding generated_key generate_multi_part_upload_id
  open_multipart = do
    generated_uuid ← generated_key
    key ← lift (must_parse (H.uuid_parse generated_uuid))
    upload_id ← generate_multi_part_upload_id generated_uuid
    return (key, upload_id)

  -- One round of the loop.
  unfoldable pub extract_one : ExtractFile → UploadFile → Run H ExtractFile
  unfolding open_multipart add_single add_multipart
  extract_one acc file =
      if ltb file.file_size multipart_threshold
      then return (record acc { single_file = add_single file acc.single_file })
      else (do
        (key, upload_id) ← open_multipart
        return
            (record acc { multipart_file = add_multipart file key upload_id acc.multipart_file }))

  unfoldable pub extract_from : ExtractFile → List UploadFile → Run H ExtractFile
  unfolding extract_one
  extract_from acc [] = return acc
  extract_from acc (file ∷ files) = do acc' ← extract_one acc file; extract_from acc' files

  unfoldable pub extract_file_data : List UploadFile → Run H ExtractFile
  unfolding extract_from
  extract_file_data files = extract_from empty_extract files
