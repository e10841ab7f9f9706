-- ===== src/ImageStore/Urls.antt =====
-- internal/imagestore/image_upload.go: the presigned urls of small files and of large ones, after
-- the insert of their upload attempts.
pub mod Laws
pub mod Tags
pub mod Multi
pub mod Answers
pub mod Serves
pub mod Total
use be_auction_lot.Prelude.{String, ◌<>◌, List, [], ◌∷◌, ◌++◌, none, some, Option}
use be_auction_lot.Prelude.Int.{pos}
use be_auction_lot.Prelude.GoMap.{GoMap, insert, get_or, lookup}
use be_auction_lot.AppError.{plain}
use be_auction_lot.Outcome.{Outcome, ok}
use be_auction_lot.Action.{◌>>=◌, lift, return, or_fail, for_each}
use be_auction_lot.Encoding.{hex_to_base64}
use be_auction_lot.Filestore.{
  Uuid, uuid, Queries, multi_upload, single_upload, InsertSinglePartUploadParams,
  InsertSinglePartUploadRow, InsertAndValidateMultiPartUploadParams,
  InsertAndValidateMultiPartUploadRow,
}
use be_auction_lot.ImageStore.Types.{
  UploadFile, zero_upload_file, SinglePresignedUrl, PresignedHttpRequest, PresignedFileUrl,
  zero_multi, zero_single, SingleFileData, MultipartFileData, NewMultipartGenerationData,
  bucket_name, part_size,
}
use be_auction_lot.ImageStore.Host.{Host, Run, call, call_rows, presigned_put}
use be_auction_lot.ImageStore.Queries.{
  insert_single_part_upload, insert_and_validate_multi_part_upload,
}
use be_auction_lot.ImageStore.Failures.{internal_failure, storage_failure}
use be_auction_lot.ImageStore.Batch.{segregate_multi_upload_files}
use be_auction_lot.ImageStore.Extract.{extract_file_data}
use be_auction_lot.ImageStore.Parts.{
  generate_new_multi_part_upload_urls, generate_resume_upload_urls,
}

-- The map from the sha256 of an inserted row to its storage key.
unfoldable pub storage_key_map : List InsertSinglePartUploadRow → GoMap Uuid → GoMap Uuid
unfolding insert
storage_key_map [] m = m
storage_key_map (row ∷ rows) m = storage_key_map rows (insert row.sha256 row.storage_key m)

-- `insertedSinglePartFilesMap[sha256]`, the nil uuid where the key is missing
abbrev pub storage_key_of : List InsertSinglePartUploadRow → String → Uuid
storage_key_of rows sha256 = get_or (uuid 0) sha256 (storage_key_map rows [])

-- `hexToBase64` with its error.
abbrev pub encoded_or_fail : String → Option String → Outcome String
encoded_or_fail sha256 none = Outcome.err (
    internal_failure "fileupload.generateSinglePresignedPutObjectUrl"
      ("conversion of hex to base64 version of sha256(" <> (sha256 <> ") failed:")) "internal error"
      (plain "encoding/hex"))
encoded_or_fail sha256 (some s) = ok s

module _ (H : Host) where
  -- `PresignPutObject`
  unfoldable pub presign_put : String → String → Run H PresignedHttpRequest
  unfolding call internal_failure
  presign_put object_key checksum =
      or_fail
        (call H (presigned_put object_key checksum)
          (H.presign_put_object bucket_name object_key checksum))
        (internal_failure "fileupload.generateSinglePresignedPutObjectUrl"
          ("PresignPutObject failed, key is "
            <> (object_key <> (",base64 encoded sha256 is " <> (checksum <> ";"))))
          "internal error")

  unfoldable pub generate_single_presigned_put_object_url :
      String → String → Run H SinglePresignedUrl
  unfolding presign_put hex_to_base64
  generate_single_presigned_put_object_url object_key sha256 = do
    checksum ← lift (encoded_or_fail sha256 (hex_to_base64 sha256))
    url ← presign_put object_key checksum
    return (record { request = some url })

  -- One round of the loop over the small files.
  unfoldable pub presign_single :
      List InsertSinglePartUploadRow → UploadFile → Run H PresignedFileUrl
  unfolding generate_single_presigned_put_object_url storage_key_map lookup
  presign_single rows file = do
    url ←
        generate_single_presigned_put_object_url (H.uuid_string (storage_key_of rows file.sha256))
          file.sha256
    return (record {
      upload_file = file;
      presigned_upload_url = record { single = url; multi = zero_multi };
    })

  abbrev pub single_params : Uuid → SingleFileData → InsertSinglePartUploadParams
  single_params lot_id d = record {
    upload_type = single_upload;
    lot_id = lot_id;
    username = "coackroach";
    sha256s = d.single_part_file_sha256s;
    file_sizes = d.single_part_file_sizes;
    content_types = d.single_part_file_content_types;
    files_names = d.single_part_file_names;
  }

  -- `InsertSinglePartUpload`
  unfoldable pub insert_single :
      Uuid → Queries → SingleFileData → Run H (List InsertSinglePartUploadRow)
  unfolding storage_failure call_rows
  insert_single lot_id query d =
      or_fail (insert_single_part_upload H query (single_params lot_id d)) (
        storage_failure "fileupload.createSinglePresignedFileUrl"
          "insertion of singlepart upload failed," "storage error")

  unfoldable pub create_single_presigned_file_url :
      Uuid → Queries → SingleFileData → Run H (List PresignedFileUrl)
  unfolding insert_single presign_single for_each
  create_single_presigned_file_url lot_id query d = do
    rows ← insert_single lot_id query d
    for_each (presign_single rows) d.single_file_uploads

  abbrev pub multi_params : Uuid → MultipartFileData → InsertAndValidateMultiPartUploadParams
  multi_params lot_id d = record {
    upload_type = multi_upload;
    part_size = pos part_size;
    lot_id = lot_id;
    username = "dummyUsername";
    sha256s = d.multipart_file_sha256s;
    file_sizes = d.multipart_file_sizes;
    content_types = d.multipart_file_content_types;
    upload_ids = d.multipart_file_upload_ids;
    file_names = d.multipart_file_names;
    storage_keys = d.multipart_file_storage_keys;
  }

  -- One round of the loop over the new uploads; the map gives the file as the client named it.
  unfoldable pub presign_new :
      GoMap UploadFile → NewMultipartGenerationData → Run H PresignedFileUrl
  unfolding generate_new_multi_part_upload_urls lookup
  presign_new files upload = do
    requests ←
        generate_new_multi_part_upload_urls H
          (record { storage_key = upload.storage_key; upload_id = upload.upload_id })
          upload.file_parts
    return (record {
      upload_file = get_or zero_upload_file upload.sha256 files;
      presigned_upload_url = record {
        single = zero_single;
        multi = record {
          requests = requests;
          multipart_attempt_id = upload.multipart_attempt_id;
          part_size = upload.part_size;
          image_etags = [];
        };
      };
    })

  unfoldable pub generate_urls_for_new_uploads :
      List NewMultipartGenerationData → GoMap UploadFile → Run H (List PresignedFileUrl)
  unfolding presign_new for_each
  generate_urls_for_new_uploads uploads files = for_each (presign_new files) uploads

  -- One round of the loop over the uploads to be resumed.
  unfoldable pub presign_resumable :
      GoMap UploadFile → NewMultipartGenerationData → Run H PresignedFileUrl
  unfolding generate_resume_upload_urls lookup
  presign_resumable files upload = do
    (requests, etags) ←
        generate_resume_upload_urls H
          (record { storage_key = upload.storage_key; upload_id = upload.upload_id })
          upload.file_parts
    return (record {
      upload_file = get_or zero_upload_file upload.sha256 files;
      presigned_upload_url = record {
        single = zero_single;
        multi = record {
          requests = requests;
          multipart_attempt_id = upload.multipart_attempt_id;
          part_size = upload.part_size;
          image_etags = etags;
        };
      };
    })

  unfoldable pub genrate_urls_for_resumable_uploads :
      List NewMultipartGenerationData → GoMap UploadFile → Run H (List PresignedFileUrl)
  unfolding presign_resumable for_each
  genrate_urls_for_resumable_uploads uploads files = for_each (presign_resumable files) uploads

  -- `InsertAndValidateMultiPartUpload`
  unfoldable pub insert_multi :
      Uuid → Queries → MultipartFileData → Run H (List InsertAndValidateMultiPartUploadRow)
  unfolding storage_failure call_rows
  insert_multi lot_id query d =
      or_fail (insert_and_validate_multi_part_upload H query (multi_params lot_id d)) (
        storage_failure "imagestore.createMultipartPresignedFileUrl"
          "insert and validation of multipart upload failed," "unknown lotId")

  unfoldable pub create_multipart_presigned_file_url :
      Uuid → Queries → MultipartFileData → Run H (List PresignedFileUrl)
  unfolding insert_multi segregate_multi_upload_files generate_urls_for_new_uploads
      genrate_urls_for_resumable_uploads
  create_multipart_presigned_file_url lot_id query d = do
    rows ← insert_multi lot_id query d
    (new_uploads, resumable) ← lift (segregate_multi_upload_files H.uuid_string rows)
    new_urls ← generate_urls_for_new_uploads new_uploads d.multi_file_upload_map
    resumable_urls ← genrate_urls_for_resumable_uploads resumable d.multi_file_upload_map
    return (new_urls ++ resumable_urls)

  -- `if len(sha256s) > 0 { … }`: no urls for an empty column
  abbrev pub unless_empty :
      List String → Run H (List PresignedFileUrl) → Run H (List PresignedFileUrl)
  unless_empty [] m = return []
  unless_empty (_ ∷ _) m = m

  unfoldable pub generate_s3_upload_url :
      List UploadFile → Uuid → Queries → Run H (List PresignedFileUrl)
  unfolding extract_file_data create_single_presigned_file_url create_multipart_presigned_file_url
  generate_s3_upload_url files lot_id query = do
    data' ← extract_file_data H files
    single_urls ←
        unless_empty data'.single_file.single_part_file_sha256s
          (create_single_presigned_file_url lot_id query data'.single_file)
    multi_urls ←
        unless_empty data'.multipart_file.multipart_file_sha256s
          (create_multipart_presigned_file_url lot_id query data'.multipart_file)
    return (single_urls ++ multi_urls)
