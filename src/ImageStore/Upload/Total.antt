-- ===== src/ImageStore/Upload/Total.antt =====
-- When an upload ends well: with libraries and services that answer.
use be_auction_lot.Prelude.{String, List, [], ◌≡◌, refl, ap}
use be_auction_lot.Outcome
use be_auction_lot.Outcome.{Outcome, ok}
use be_auction_lot.Action.{lift}
use be_auction_lot.Action.Succeeds.{
  Succeeds, SucceedsWith, SucceedsWith->>=, Succeeds-return, Succeeds-lift, Succeeds-or_fail,
  Succeeds->>=_if, Succeeds->>=,
}
use be_auction_lot.Filestore.{
  Uuid, Queries, Dbtx, with_tx, tx, InsertIdenticalImageBlobsToLotImagesParams,
  InsertIdenticalImageBlobsToLotImagesRow,
}
use be_auction_lot.ImageStore.Types.{UploadFile, UploadFileRequestResult}
use be_auction_lot.ImageStore.Host.{Host, State, call, begun, committed, inserted_identical}
use be_auction_lot.ImageStore.Queries.{insert_identical_image_blobs_to_lot_images}
use be_auction_lot.ImageStore.Batch.{
  intent_batch_upload, existing_file_map, separate_uploaded_and_need_to_be_uploaded_files,
}
use be_auction_lot.ImageStore.Batch.Laws.{DistinctHashes, intent_batch_upload-partition}
use be_auction_lot.ImageStore.Batch.Hashes.{AllPass}
use be_auction_lot.ImageStore.Urls.{generate_s3_upload_url}
use be_auction_lot.ImageStore.Urls.Total.{generate_s3_upload_url_total}
use be_auction_lot.ImageStore.Urls.Serves.{Serves, is_hex, results, call_rows-ok}
use be_auction_lot.ImageStore.Upload.{
  file_map, identical_params, range_file_map, insert_identical, unknown_lot,
  skip_upload_for_identical_image_blobs, deferring_rollback, begin_transaction, commit_transaction,
  prepare_upload, upload_in_transaction, initiate_upload,
}
use be_auction_lot.ImageStore.Upload.Answers.{RangesOnce, separate-perm, chosen_pass}

-- Every call of an upload is answered.
pub record Answers (H : Host) : Type 0 where
  pub urls : Serves H
  pub begins : (w : H.World) → (H.begin w).0 ≡ ok tt
  pub commits : (w : H.World) → (H.commit w).0 ≡ ok tt
  pub identical :
      (db : Dbtx) (arg : InsertIdenticalImageBlobsToLotImagesParams) (w : H.World)
      → (rows : List InsertIdenticalImageBlobsToLotImagesRow) × ((H.query_insert_identical db arg
            w).0
          ≡ ok (results rows))
  pub ranges : RangesOnce H

module _ (H : Host) (answers : Answers H) where
  skip-total :
      (files : List UploadFile) (lot_id : Uuid) (query : Queries)
      → DistinctHashes files
      → AllPass is_hex files
      → SucceedsWith
          (λ x. AllPass is_hex x.0)
          (skip_upload_for_identical_image_blobs H files lot_id query)
  unfolding skip_upload_for_identical_image_blobs range_file_map insert_identical
  skip-total files lot_id query distinct hex =
      SucceedsWith->>= (λ x. AllPass is_hex x.0) (insert_identical H files lot_id query) _
        (Succeeds-or_fail
          (insert_identical_image_blobs_to_lot_images H query (identical_params lot_id files)) _
          λ s.
            let arg = identical_params lot_id files in
            let (rows, e) = answers.identical query.db arg s.world in
            (
              rows,
              call_rows-ok (inserted_identical query.db arg) (H.query_insert_identical query.db arg)
                  s rows e,
            ))
        λ rows s.
          let entries = H.range_files s.world (file_map files []) in
          let known = existing_file_map rows [] in
          (
            separate_uploaded_and_need_to_be_uploaded_files entries known,
            refl,
            (separate-perm is_hex files entries known _ distinct hex
                (answers.ranges s.world (file_map files [])) refl).2,
          )

  prepare-total :
      (files : List UploadFile) (lot_id : Uuid) (query : Queries)
      → DistinctHashes files
      → AllPass is_hex files
      → Succeeds (prepare_upload H files lot_id query)
  unfolding prepare_upload
  prepare-total files lot_id query distinct hex =
      Succeeds->>=_if (λ x. AllPass is_hex x.0)
        (skip_upload_for_identical_image_blobs H files lot_id query) _
        (skip-total files lot_id query distinct hex)
        λ split pass.
          Succeeds->>= (generate_s3_upload_url H split.0 lot_id query) _
            (generate_s3_upload_url_total H answers.urls split.0 lot_id query pass)
            λ urls. Succeeds-return _

  upload-total :
      (files duplicates : List UploadFile) (lot_id : Uuid) (query : Queries)
      → DistinctHashes files
      → AllPass is_hex files
      → Succeeds (upload_in_transaction H files duplicates lot_id query)
  unfolding upload_in_transaction commit_transaction call
  upload-total files duplicates lot_id query distinct hex =
      Succeeds->>= (prepare_upload H files lot_id query) _
        (prepare-total files lot_id query distinct hex)
        λ x.
          Succeeds->>= (commit_transaction H) _
            (Succeeds-or_fail (call H committed H.commit) _ (λ s. (tt, answers.commits s.world)))
            λ _. Succeeds-return _

  -- With libraries and services that answer every call, an upload to a lot whose id is parsed, of
  -- files whose hashes are hex text, ends well from every state, for a batch of any size. The answers
  -- have what is read of them: uuids that are parsed back, upload ids, rows of large files with an
  -- upload id and a part size, listed parts with etags and numbers, and a range over a map meets
  -- every entry once.
  pub initiate_upload_total :
      (query : Queries) (files : List UploadFile) (lot_id : String) (id : Uuid) (s : State H)
      → H.uuid_parse lot_id ≡ ok id
      → AllPass is_hex files
      → (r : UploadFileRequestResult) × ((initiate_upload H query files lot_id s).0 ≡ ok r)
  unfolding initiate_upload begin_transaction deferring_rollback call
  initiate_upload_total query files lot_id id s parsed hex =
      let batch = intent_batch_upload files in
      let (_, distinct, _) = intent_batch_upload-partition files in
      Succeeds->>= (lift (Outcome.map_err unknown_lot (H.uuid_parse lot_id))) _
        (Succeeds-lift _ id (ap (Outcome.map_err unknown_lot) parsed))
        (λ lot.
          Succeeds->>= (begin_transaction H) _
            (Succeeds-or_fail (call H begun H.begin) _ (λ t. (tt, answers.begins t.world)))
            λ _ t.
              upload-total batch.0 batch.1 lot (with_tx query tx) distinct
                (chosen_pass is_hex files hex) t)
        s
