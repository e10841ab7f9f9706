-- ===== src/ImageStore/Upload.antt =====
-- internal/imagestore/image_upload.go: `initiateUpload` and the step that skips known images.
pub mod Calls
pub mod Laws
pub mod Answers
pub mod Total
use be_auction_lot.Prelude.{String, List, [], ◌∷◌, map, none, some}
use be_auction_lot.Prelude.GoMap.{GoMap, insert}
use be_auction_lot.AppError.{GoError, app, mark_as_client_err, invalid_argument_error}
use be_auction_lot.Outcome
use be_auction_lot.Outcome.{Outcome, ok}
use be_auction_lot.Action.{Action, ◌>>=◌, ◌>>◌, lift, return, or_fail}
use be_auction_lot.Filestore.{
  Uuid, Queries, with_tx, tx, InsertIdenticalImageBlobsToLotImagesParams,
  InsertIdenticalImageBlobsToLotImagesRow,
}
use be_auction_lot.ImageStore.Types.{UploadFile, UploadFileRequestResult, PresignedFileUrl}
use be_auction_lot.ImageStore.Host.{
  Host, State, Run, call, call_rows, begun, committed, rolled_back, inserted_identical,
}
use be_auction_lot.ImageStore.Queries.{insert_identical_image_blobs_to_lot_images}
use be_auction_lot.ImageStore.Failures.{internal_failure, storage_failure}
use be_auction_lot.ImageStore.Batch.{
  intent_batch_upload, existing_file_map, separate_uploaded_and_need_to_be_uploaded_files,
}
use be_auction_lot.ImageStore.Urls.{generate_s3_upload_url}

-- `fileMap`
unfoldable pub file_map : List UploadFile → GoMap UploadFile → GoMap UploadFile
file_map [] m = m
file_map (f ∷ fs) m = file_map fs (insert f.sha256 f m)

abbrev pub identical_params : Uuid → List UploadFile → InsertIdenticalImageBlobsToLotImagesParams
identical_params lot_id files = record {
  lot_id = lot_id;
  sha256s = map (λ f. f.sha256) files;
  file_names = map (λ f. f.file_name) files;
}

-- The error for a lot id that is no uuid.
abbrev pub unknown_lot : GoError → GoError
unknown_lot err = app (
    mark_as_client_err (
      invalid_argument_error "imageStore.initiateUpload"
        (record {
          fields =
              record { field = "lotId"; description = "lotId could not be parsed as uuid" } ∷ [];
          message = "unknown lotId";
        })
        err))

module _ (H : Host) where
  -- `for _, file := range fileMap`: the entries in the order that Go picks.
  unfoldable pub range_file_map : GoMap UploadFile → Run H (List (String × UploadFile))
  range_file_map m s = (ok (H.range_files s.world m), s)

  -- `InsertIdenticalImageBlobsToLotImages`
  unfoldable pub insert_identical :
      List UploadFile → Uuid → Queries → Run H (List InsertIdenticalImageBlobsToLotImagesRow)
  unfolding call_rows storage_failure
  insert_identical files lot_id query =
      or_fail (insert_identical_image_blobs_to_lot_images H query (identical_params lot_id files)) (
        storage_failure "imagestore.skipUploadForIdenticalImageBlobs"
          "insert identical image blob to log_images table failed:" "internal error")

  -- The files that still need an upload, and those that do not.
  unfoldable pub skip_upload_for_identical_image_blobs :
      List UploadFile → Uuid → Queries → Run H (List UploadFile × List UploadFile)
  unfolding insert_identical file_map range_file_map existing_file_map
      separate_uploaded_and_need_to_be_uploaded_files
  skip_upload_for_identical_image_blobs files lot_id query = do
    identical_blobs ← insert_identical files lot_id query
    entries ← range_file_map (file_map files [])
    return (
        separate_uploaded_and_need_to_be_uploaded_files entries
          (existing_file_map identical_blobs []))

  -- `defer tx.Rollback(ctx)`: it runs however the rest ends, and its error is dropped.
  unfoldable pub deferring_rollback : {A : Type 0} → Run H A → Run H A
  unfolding call
  deferring_rollback m s = let (r, s') = m s in (r, (call H rolled_back H.rollback s').1)

  unfoldable pub begin_transaction : Run H (Unit {0})
  unfolding call internal_failure
  begin_transaction = or_fail (call H begun H.begin) (
      internal_failure "imageStore.initiateUpload" "start of db transaction failed:"
        "cannot start operation")

  unfoldable pub commit_transaction : Run H (Unit {0})
  unfolding call internal_failure
  commit_transaction = or_fail (call H committed H.commit) (
      internal_failure "imageStore.initiateUpload" "cannot commit database transaction:"
        "internal error")

  -- The part of `initiateUpload` between the `defer` and the commit: the files that are there
  -- already, and the urls for the others.
  unfoldable pub prepare_upload :
      List UploadFile → Uuid → Queries → Run H (List UploadFile × List PresignedFileUrl)
  unfolding skip_upload_for_identical_image_blobs generate_s3_upload_url
  prepare_upload files lot_id qtx = do
    (need_to_be_upload_files, already_uploaded_files) ←
        skip_upload_for_identical_image_blobs files lot_id qtx
    presigned_urls ← generate_s3_upload_url H need_to_be_upload_files lot_id qtx
    return (already_uploaded_files, presigned_urls)

  -- The part of `initiateUpload` behind the `defer`.
  unfoldable pub upload_in_transaction :
      List UploadFile → List UploadFile → Uuid → Queries → Run H UploadFileRequestResult
  unfolding prepare_upload commit_transaction
  upload_in_transaction files duplicate_files lot_id qtx = do
    (already_uploaded_files, presigned_urls) ← prepare_upload files lot_id qtx
    commit_transaction
    return (record {
      duplicate_files = duplicate_files;
      already_uploaded_files = already_uploaded_files;
      presigned_file_urls = presigned_urls;
    })

  unfoldable pub initiate_upload :
      Queries → List UploadFile → String → Run H UploadFileRequestResult
  unfolding begin_transaction mark_as_client_err invalid_argument_error intent_batch_upload with_tx
      deferring_rollback upload_in_transaction
  initiate_upload db_storage_query file_to_upload lot_id = do
    let batch = intent_batch_upload file_to_upload
    lot_id_uuid ← lift (Outcome.map_err unknown_lot (H.uuid_parse lot_id))
    begin_transaction
    deferring_rollback
        (upload_in_transaction batch.0 batch.1 lot_id_uuid (with_tx db_storage_query tx))
