-- ===== src/ImageStore/Complete.antt =====
-- internal/imagestore/image_upload.go: `completeMultiPartUpload`.
pub mod Laws
use be_auction_lot.Prelude.{String, ◌<>◌, List, [], ◌∷◌, length, if◌then◌else◌}
use be_auction_lot.Prelude.Int.{ℤ, pos, ◌-ℤ◌, eqb_ℤ}
use be_auction_lot.AppError.{
  GoError, nil, app, wrapped, mark_as_client_err, not_found_error, precondition_failed_error,
}
use be_auction_lot.Database.{is_row_not_found}
use be_auction_lot.Outcome
use be_auction_lot.Outcome.{Outcome, ok, err, panic, deref}
use be_auction_lot.Action.{Action, ◌>>=◌, ◌>>◌, lift, return, or_fail}
use be_auction_lot.Strconv.{itoa}
use be_auction_lot.Filestore.{Queries, GetMultiPartUploadItemRow}
use be_auction_lot.ImageStore.Types.{CompletedPart, S3Part}
use be_auction_lot.ImageStore.Host.{Host, Run, call, read_item, listed_parts, completed_multipart}
use be_auction_lot.ImageStore.Queries.{get_multi_part_upload_item}
use be_auction_lot.ImageStore.Failures.{internal_failure}

-- `int(*a.PartNumber) - int(*b.PartNumber)`
unfoldable pub compare_parts : CompletedPart → CompletedPart → Outcome ℤ
unfolding ◌-ℤ◌
compare_parts a b =
    Outcome.◌>>=◌ (deref a.part_number) λ m. Outcome.◌>>=◌ (deref b.part_number) λ n. ok (m -ℤ n)

-- The error of a failed read of the attempt.
unfoldable pub item_failure : ℤ → GoError → GoError
unfolding is_row_not_found mark_as_client_err not_found_error itoa internal_failure
item_failure id e =
    if is_row_not_found e
    then app (
        mark_as_client_err (
          not_found_error "imagestore.completeMultiPartUpload"
            (wrapped ("multipart attempt id " <> (itoa id <> " not found:")) e "")
            ("multipart attempt Id " <> (itoa id <> " could not be found"))))
    else internal_failure "imagestore.completeMultiPartUpload"
        ("cannot get multipart attempt id " <> (itoa id <> ":")) "internal error" e

-- The error for parts that are missing; the error that it wraps is nil.
unfoldable pub parts_missing : ℤ → GoError
unfolding mark_as_client_err precondition_failed_error itoa
parts_missing id = app (
    mark_as_client_err (
      precondition_failed_error "imagestore.completeMultiPartUpload"
        (record {
          fields =
              record {
                field = "parts";
                description =
                    "All parts have not been uploaded for multipart Attempt Id "
                    <> (itoa id <> ". First Upload all the parts.");
              }
              ∷ [];
          message = "Not all parts have been uploaded";
        })
        (wrapped ("all parts have not been uploaded for multipart attempt id " <> (itoa id <> ":"))
          nil "")))

-- `_, err = f(); if err != nil { … }` where the branch returns nothing: the error is dropped.
abbrev pub drop_err : {A : Type 0} → Outcome A → Outcome (Unit {0})
drop_err (ok _) = ok tt
drop_err (err _) = ok tt
drop_err panic = panic

module _ (H : Host) where
  unfoldable pub complete_on_s3 :
      String → GetMultiPartUploadItemRow → List CompletedPart → Run H (Unit {0})
  unfolding call
  complete_on_s3 bucket item parts s =
      let (r, s') =
        call H (completed_multipart bucket (H.uuid_string item.storage_key) item.upload_id parts)
          (H.complete_multipart_upload bucket (H.uuid_string item.storage_key) item.upload_id parts)
          s in
      (drop_err r, s')

  -- The guard on the number of parts, and the call behind it.
  unfoldable pub complete_if_all :
      ℤ
      → String
      → GetMultiPartUploadItemRow
      → List CompletedPart
      → List S3Part
      → ℤ
      → Run H (Unit {0})
  unfolding complete_on_s3 parts_missing eqb_ℤ
  complete_if_all id bucket item parts listed part_count =
      if eqb_ℤ (pos (length listed)) part_count
      then complete_on_s3 bucket item parts
      else lift (err (parts_missing id))

  unfoldable pub complete_multi_part_upload :
      Queries → ℤ → String → List CompletedPart → Run H (Unit {0})
  unfolding call item_failure compare_parts internal_failure complete_if_all
  complete_multi_part_upload query id bucket etag_parts = do
    item ← or_fail (get_multi_part_upload_item H query id) (item_failure id)
    sorted ← lift (H.sort_func compare_parts etag_parts)
    listed ←
        or_fail
          (call H (listed_parts bucket (H.uuid_string item.storage_key) item.upload_id)
            (H.list_parts bucket (H.uuid_string item.storage_key) item.upload_id))
          (internal_failure "imagestore.completeMultiPartUpload"
            ("cannot get uploaded image parts of key "
              <> (H.uuid_string item.storage_key <> (" and bucket " <> (bucket <> ":"))))
            "internal error")
    part_count ← lift (deref item.part_count)
    complete_if_all id bucket item sorted listed part_count
