-- ===== src/ImageStore/Batch.antt =====
-- internal/imagestore/image_upload.go: the pure steps over a batch of files.
pub mod Laws
pub mod Split
pub mod Hashes
use be_auction_lot.Prelude.{
  String, Bool, true, false, ◌&&◌, ◌||◌, not, List, [], ◌∷◌, ◌++◌, if◌then◌else◌,
}
use be_auction_lot.Prelude.GoMap.{GoMap, insert, get_or, has_key, lookup}
use be_auction_lot.Outcome.{Outcome, ok, deref, ◌>>=◌}
use be_auction_lot.Filestore.{
  InsertIdenticalImageBlobsToLotImagesRow, InsertAndValidateMultiPartUploadRow, Uuid,
}
use be_auction_lot.ImageStore.Types.{UploadFile, NewMultipartGenerationData}

-- The loop of `intentBatchUpload`: `is_seen` is the map, and the two slices are the result.
unfoldable pub intent_batch_from : GoMap Bool → List UploadFile → List UploadFile × List UploadFile
unfolding insert lookup
intent_batch_from is_seen [] = ([], [])
intent_batch_from is_seen (v ∷ vs) =
    let (files, duplicates) = intent_batch_from (insert v.sha256 true is_seen) vs in
    if get_or false v.sha256 is_seen then (files, v ∷ duplicates) else (v ∷ files, duplicates)

unfoldable pub intent_batch_upload : List UploadFile → List UploadFile × List UploadFile
unfolding intent_batch_from
intent_batch_upload files_to_upload = intent_batch_from [] files_to_upload

-- `existingFileMap`
unfoldable pub existing_file_map :
    List InsertIdenticalImageBlobsToLotImagesRow
    → GoMap InsertIdenticalImageBlobsToLotImagesRow
    → GoMap InsertIdenticalImageBlobsToLotImagesRow
existing_file_map [] m = m
existing_file_map (row ∷ rows) m = existing_file_map rows (insert row.sha256 row m)

-- The loop over the entries of the file map, in the order of the range; the first list still needs
-- the upload.
unfoldable pub separate_uploaded_and_need_to_be_uploaded_files :
    List (String × UploadFile)
    → GoMap InsertIdenticalImageBlobsToLotImagesRow
    → List UploadFile × List UploadFile
unfolding lookup
separate_uploaded_and_need_to_be_uploaded_files [] existing = ([], [])
separate_uploaded_and_need_to_be_uploaded_files ((_, file) ∷ entries) existing =
    let (needed, uploaded) = separate_uploaded_and_need_to_be_uploaded_files entries existing in
    if has_key file.sha256 existing then (needed, file ∷ uploaded) else (file ∷ needed, uploaded)

-- New uploads, then those to be resumed.
abbrev pub Segregated : Type 0
Segregated = List NewMultipartGenerationData × List NewMultipartGenerationData

module _ (uuid_string : Uuid → String) where
  -- The literal that both branches of `segregateMultiUploadFiles` build.
  unfoldable pub generation_data :
      InsertAndValidateMultiPartUploadRow → Outcome NewMultipartGenerationData
  generation_data row = do
    upload_id ← deref row.upload_id
    part_size ← deref row.part_size
    ok (record {
      object_key = uuid_string row.storage_key;
      file_parts = row.parts;
      upload_id = upload_id;
      storage_key = uuid_string row.storage_key;
      sha256 = row.sha256;
      part_size = part_size;
      multipart_attempt_id = row.image_blob_upload_attempt_id;
    })

  unfoldable pub segregate_row :
      InsertAndValidateMultiPartUploadRow → Segregated → Outcome Segregated
  unfolding generation_data
  segregate_row row (new_uploads, resumable) =
      if row.is_inserted || (not row.is_inserted && not row.is_valid)
      then (do upload ← generation_data row; ok (new_uploads ++ (upload ∷ []), resumable))
      else if row.is_valid
      then (do upload ← generation_data row; ok (new_uploads, resumable ++ (upload ∷ [])))
      else ok (new_uploads, resumable)

  unfoldable pub segregate_from :
      List InsertAndValidateMultiPartUploadRow → Segregated → Outcome Segregated
  unfolding segregate_row
  segregate_from [] acc = ok acc
  segregate_from (row ∷ rows) acc = do acc' ← segregate_row row acc; segregate_from rows acc'

  unfoldable pub segregate_multi_upload_files :
      List InsertAndValidateMultiPartUploadRow → Outcome Segregated
  unfolding segregate_from
  segregate_multi_upload_files rows = segregate_from rows ([], [])
