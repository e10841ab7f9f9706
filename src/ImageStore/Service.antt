-- ===== src/ImageStore/Service.antt =====
-- internal/imagestore/image_store.go: the two handlers of LotImageService.
pub mod Laws
use be_auction_lot.Prelude.{Bool, true, some}
use be_auction_lot.Outcome
use be_auction_lot.Action.{Action, ◌>>=◌, ◌>>◌, lift, return}
use be_auction_lot.Outcome.{deref}
use be_auction_lot.Filestore.{Queries, new, conn}
use be_auction_lot.ImageStore.Types.{bucket_name}
use be_auction_lot.ImageStore.Host.{Host, Run}
use be_auction_lot.ImageStore.Upload.{initiate_upload}
use be_auction_lot.ImageStore.Complete.{complete_multi_part_upload}
use be_auction_lot.ImageStore.Wire.{
  GeneratePresignedUrlRequest, GeneratePresignedUrlResponse, CompleteMultiPartUploadRequest,
  CompleteMultiPartUploadResponse, convert_to_upload_files, convert_to_image_files,
  convert_to_presigned_image_files, convert_to_completed_parts,
}

-- `dbStorageQuery` of `NewImageStore`
unfoldable pub db_storage_query : Queries
unfolding new
db_storage_query = new conn

module _ (H : Host) where
  unfoldable pub complete_multi_part_upload_handler :
      CompleteMultiPartUploadRequest → Run H CompleteMultiPartUploadResponse
  unfolding convert_to_completed_parts complete_multi_part_upload db_storage_query
  complete_multi_part_upload_handler request = do
    etag_parts ← lift (convert_to_completed_parts request.part_etags)
    id ← lift (deref request.multipart_attempt_id)
    complete_multi_part_upload H db_storage_query id bucket_name etag_parts
    return (record { success = some true; message = some "Upload Completed" })

  unfoldable pub generate_presigned_url :
      GeneratePresignedUrlRequest → Run H GeneratePresignedUrlResponse
  unfolding convert_to_upload_files initiate_upload convert_to_image_files
      convert_to_presigned_image_files db_storage_query
  generate_presigned_url request = do
    files ← lift (convert_to_upload_files request.lot_images)
    lot_id ← lift (deref request.lot_id)
    result ← initiate_upload H db_storage_query files lot_id
    duplicate_files ← lift (convert_to_image_files result.duplicate_files)
    already_uploaded_files ← lift (convert_to_image_files result.already_uploaded_files)
    presigned_files ← lift (convert_to_presigned_image_files result.presigned_file_urls)
    return (record {
      success = some true;
      message = some "Presigned url created";
      presign_result = record {
        duplicate_files = duplicate_files;
        already_uploaded_files = already_uploaded_files;
        presigned_files = presigned_files;
      };
    })
