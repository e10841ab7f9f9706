-- ===== src/ImageStore/Batch/Split.antt =====
-- Where the files and the rows of a batch go: the split by known images, and the split of the rows
-- of the multipart insert into new and resumable uploads.
use be_auction_lot.Prelude.{
  String, Bool, ◌&&◌, not, List, [], ◌∷◌, ◌++◌, if◌then◌else◌, ◌≡◌, refl, ◌≢◌, arith, Bool-cases,
  All, keep, map, some, none, ◌∙◌, append_assoc, append-nil, inl, inr,
}
use be_auction_lot.Prelude.Int.{pos}
use be_auction_lot.Prelude.GoMap.{GoMap, has_key}
use be_auction_lot.Outcome.{ok}
use be_auction_lot.Filestore.{
  InsertIdenticalImageBlobsToLotImagesRow, InsertAndValidateMultiPartUploadRow, Uuid,
}
use be_auction_lot.ImageStore.Types.{UploadFile, NewMultipartGenerationData}
use be_auction_lot.ImageStore.Batch.{
  separate_uploaded_and_need_to_be_uploaded_files, generation_data, segregate_row, segregate_from,
  segregate_multi_upload_files, Segregated,
}

abbrev pub is_known : GoMap InsertIdenticalImageBlobsToLotImagesRow → UploadFile → Bool
is_known existing f = has_key f.sha256 existing

abbrev pub file_of : String × UploadFile → UploadFile
file_of (_, f) = f

-- The split by known images keeps the order of the range on both sides.
pub separate-eq-keep :
    (entries : List (String × UploadFile))
    (existing : GoMap InsertIdenticalImageBlobsToLotImagesRow)
    → separate_uploaded_and_need_to_be_uploaded_files entries existing ≡ (
      keep (λ f. not (is_known existing f)) (map file_of entries),
      keep (is_known existing) (map file_of entries),
    )
unfolding separate_uploaded_and_need_to_be_uploaded_files keep
separate-eq-keep [] existing = refl
separate-eq-keep ((k, f) ∷ entries) existing = rw (separate-eq-keep entries existing) (ground arith)

-- The row has the two columns that the source reads through pointers.
abbrev pub HasPointers : InsertAndValidateMultiPartUploadRow → Type 0
HasPointers row = (row.upload_id ≢ none) × (row.part_size ≢ none)

-- An upload is resumed if it was there before and is still valid.
abbrev pub is_resumable : InsertAndValidateMultiPartUploadRow → Bool
is_resumable row = not row.is_inserted && row.is_valid

module _ (uuid_string : Uuid → String) where
  -- What the row says of its upload.
  pub upload_of : InsertAndValidateMultiPartUploadRow → NewMultipartGenerationData
  upload_of row = record {
    object_key = uuid_string row.storage_key;
    file_parts = row.parts;
    upload_id = elim row.upload_id [ none ↦ "" | some t ↦ t ];
    storage_key = uuid_string row.storage_key;
    sha256 = row.sha256;
    part_size = elim row.part_size [ none ↦ pos 0 | some n ↦ n ];
    multipart_attempt_id = row.image_blob_upload_attempt_id;
  }

  generation_data-upload_of :
      (row : InsertAndValidateMultiPartUploadRow)
      → HasPointers row
      → generation_data uuid_string row ≡ ok (upload_of row)
  unfolding generation_data upload_of
  generation_data-upload_of row h = ground arith

  segregate_row-eq :
      (row : InsertAndValidateMultiPartUploadRow) (acc : Segregated)
      → HasPointers row
      → segregate_row uuid_string row acc
        ≡ ok (
            if is_resumable row
            then (acc.0, acc.1 ++ (upload_of row ∷ []))
            else (acc.0 ++ (upload_of row ∷ []), acc.1))
  unfolding segregate_row
  segregate_row-eq row acc h = ground (arith, generation_data-upload_of row h)

  split_onto : Segregated → List InsertAndValidateMultiPartUploadRow → Segregated
  split_onto acc rows = (
    acc.0 ++ map upload_of (keep (λ r. not (is_resumable r)) rows),
    acc.1 ++ map upload_of (keep is_resumable rows),
  )

  segregate_from-eq :
      (rows : List InsertAndValidateMultiPartUploadRow) (acc : Segregated)
      → All HasPointers rows
      → segregate_from uuid_string rows acc ≡ ok (split_onto acc rows)
  unfolding segregate_from split_onto keep
  segregate_from-eq [] acc h = rw (append-nil acc.0, append-nil acc.1) refl
  segregate_from-eq (row ∷ rows) acc (p, h) = elim (Bool-cases (is_resumable row)) [
    | inl old ↦
        rw (segregate_row-eq row acc p, old)
          (segregate_from-eq rows (acc.0, acc.1 ++ (upload_of row ∷ [])) h
            ∙ rw (append_assoc acc.1 (upload_of row ∷ [])) refl)
    | inr new ↦
        rw (segregate_row-eq row acc p, new)
          (segregate_from-eq rows (acc.0 ++ (upload_of row ∷ []), acc.1) h
            ∙ rw (append_assoc acc.0 (upload_of row ∷ [])) refl)
  ]

  -- If every row has its upload id and its part size, the split ends well: each row becomes one
  -- upload, which is resumed exactly if the row was there before and is still valid, in order.
  pub segregate_multi_upload_files-split :
      (rows : List InsertAndValidateMultiPartUploadRow)
      → All HasPointers rows
      → segregate_multi_upload_files uuid_string rows
        ≡ ok (
          map upload_of (keep (λ r. not (is_resumable r)) rows),
          map upload_of (keep is_resumable rows),
        )
  unfolding segregate_multi_upload_files split_onto
  segregate_multi_upload_files-split rows h = segregate_from-eq rows ([], []) h
