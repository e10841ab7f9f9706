-- ===== src/ImageStore/Queries.antt =====
-- internal/database/filestore/file_insert.sql.go: the queries of the uploads, as methods of
-- `Queries`. The SQL text runs in Postgres, behind the host.
use be_auction_lot.Prelude.{List}
use be_auction_lot.Prelude.Int.{ℤ}
use be_auction_lot.Filestore.{
  Queries, GetMultiPartUploadItemRow, InsertAndValidateMultiPartUploadParams,
  InsertAndValidateMultiPartUploadRow, InsertIdenticalImageBlobsToLotImagesParams,
  InsertIdenticalImageBlobsToLotImagesRow, InsertSinglePartUploadParams, InsertSinglePartUploadRow,
}
use be_auction_lot.ImageStore.Host.{
  Host, Run, call, call_rows, read_item, inserted_identical, inserted_single, inserted_multi,
}

module _ (H : Host) where
  abbrev pub get_multi_part_upload_item : Queries → ℤ → Run H GetMultiPartUploadItemRow
  get_multi_part_upload_item q id = call H (read_item q.db id) (H.query_row_item q.db id)

  abbrev pub insert_and_validate_multi_part_upload :
      Queries
      → InsertAndValidateMultiPartUploadParams
      → Run H (List InsertAndValidateMultiPartUploadRow)
  insert_and_validate_multi_part_upload q arg =
      call_rows H (inserted_multi q.db arg) (H.query_insert_multi q.db arg)

  abbrev pub insert_identical_image_blobs_to_lot_images :
      Queries
      → InsertIdenticalImageBlobsToLotImagesParams
      → Run H (List InsertIdenticalImageBlobsToLotImagesRow)
  insert_identical_image_blobs_to_lot_images q arg =
      call_rows H (inserted_identical q.db arg) (H.query_insert_identical q.db arg)

  abbrev pub insert_single_part_upload :
      Queries → InsertSinglePartUploadParams → Run H (List InsertSinglePartUploadRow)
  insert_single_part_upload q arg =
      call_rows H (inserted_single q.db arg) (H.query_insert_single q.db arg)
