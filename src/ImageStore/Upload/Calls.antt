-- ===== src/ImageStore/Upload/Calls.antt =====
-- Which calls the steps of an upload make between the begin and the commit of their transaction.
use be_auction_lot.Prelude.{
  String, List, [], ◌∷◌, ◌≡◌, refl, some, Bool-cases, inl, inr, ltb, sym, append-nil,
}
use be_auction_lot.Prelude.Int.{ℤ}
use be_auction_lot.Prelude.GoMap.{GoMap}
use be_auction_lot.AppError.{GoError}
use be_auction_lot.Outcome.{Outcome, deref}
use be_auction_lot.Action.{◌>>=◌, lift, return, or_fail, for_each}
use be_auction_lot.Encoding.{hex_to_base64}
use be_auction_lot.Filestore.{Uuid, tx, Queries, InsertSinglePartUploadRow}
use be_auction_lot.ImageStore.Types.{
  UploadFile, ExtractFile, UploadIdentity, NewMultipartGenerationData, SingleFileData,
  MultipartFileData, PresignedFileUrl, multipart_threshold, bucket_name,
}
use be_auction_lot.ImageStore.Host.{
  Host, Run, Call, inserted_identical, inserted_single, inserted_multi, read_item,
  created_multipart, listed_parts, completed_multipart, presigned_put, presigned_part, drew_random,
}
use be_auction_lot.ImageStore.Trace
use be_auction_lot.ImageStore.Trace.{Adds}
use be_auction_lot.ImageStore.Extract.{
  draw_uuid, create_upload, generate_multi_part_upload_id, generated_key, open_multipart,
  extract_one, extract_from, extract_file_data, empty_extract, must_parse,
}
use be_auction_lot.ImageStore.Parts.{
  list_parts_of, uploaded_parts, list_not_uploaded_parts, presign_upload_part, presign_part,
  generate_new_multi_part_upload_urls, generate_existing_multi_part_presigned_url,
  generate_resume_upload_urls,
}
use be_auction_lot.ImageStore.Failures.{internal_failure}
use be_auction_lot.ImageStore.Batch.{segregate_multi_upload_files}
use be_auction_lot.ImageStore.Urls.{
  encoded_or_fail, storage_key_of, presign_put, generate_single_presigned_put_object_url,
  presign_single, insert_single, create_single_presigned_file_url, presign_new,
  generate_urls_for_new_uploads, presign_resumable, genrate_urls_for_resumable_uploads,
  insert_multi, create_multipart_presigned_file_url, unless_empty, generate_s3_upload_url,
}
use be_auction_lot.ImageStore.Upload.{
  insert_identical, range_file_map, skip_upload_for_identical_image_blobs, prepare_upload,
}

-- A call that may stand inside the transaction: the database is used through it only, and it is
-- neither begun again nor ended.
abbrev pub IsInside : Call → Type 0
IsInside (inserted_identical db _) = db ≡ tx
IsInside (inserted_single db _) = db ≡ tx
IsInside (inserted_multi db _) = db ≡ tx
IsInside (created_multipart _) = Unit
IsInside (listed_parts _ _ _) = Unit
IsInside (presigned_put _ _) = Unit
IsInside (presigned_part _ _ _) = Unit
IsInside drew_random = Unit
IsInside (read_item _ _) = ⊥
IsInside (completed_multipart _ _ _ _) = ⊥
IsInside _ = ⊥

-- The error of a failed listing of a resumed upload.
abbrev resume_failure : GoError → GoError
resume_failure =
    internal_failure "fileupload.generateResumeUploadUrls" "listing of non-uploaded parts failed:"
      "internal error"

module _ (H : Host) where
  -- Only calls that may stand inside.
  abbrev pub Inside : {A : Type 0} → Run H A → Type 0
  Inside m = Adds {H = H} IsInside m

  then-Inside :
      {A B : Type 0} (m : Run H A) (f : A → Run H B)
      → Inside m
      → ((a : A) → Inside (f a))
      → Inside (m >>= f)
  then-Inside = Trace.Adds->>= H IsInside

  then_return :
      {A B : Type 0} (m : Run H A) (g : A → B) → Inside m → Inside (m >>= λ a. return (g a))
  then_return m g h = then-Inside m _ h λ a. Trace.Adds-return H IsInside (g a)

  each-Inside :
      {A B : Type 0} (f : A → Run H B)
      → ((x : A) → Inside (f x))
      → (xs : List A) → Inside (for_each f xs)
  each-Inside = Trace.Adds-for_each H IsInside

  no_calls : {A : Type 0} (r : Outcome A) → Inside (lift r)
  no_calls r = Trace.Adds-lift H IsInside r

  -- The steps that make one call each.
  draw_uuid-Inside : Inside (draw_uuid H)
  unfolding draw_uuid Trace.effect
  draw_uuid-Inside s = (drew_random ∷ [], refl, refl, (tt, tt))

  create_upload-Inside : (key : String) → Inside (create_upload H key)
  unfolding create_upload Trace.effect
  create_upload-Inside key s = (created_multipart key ∷ [], refl, refl, (tt, tt))

  list_parts_of-Inside : (identity : UploadIdentity) → Inside (list_parts_of H identity)
  unfolding list_parts_of Trace.effect
  list_parts_of-Inside identity s = (
    listed_parts bucket_name identity.storage_key (some identity.upload_id) ∷ [],
    refl,
    refl,
    (tt, tt),
  )

  presign_upload_part-Inside :
      (fail : GoError → GoError) (identity : UploadIdentity) (part : ℤ)
      → Inside (presign_upload_part H fail identity part)
  unfolding presign_upload_part Trace.effect
  presign_upload_part-Inside fail identity part s = (_, refl, refl, (tt, tt))

  presign_put-Inside : (key checksum : String) → Inside (presign_put H key checksum)
  unfolding presign_put Trace.effect
  presign_put-Inside key checksum s = (presigned_put key checksum ∷ [], refl, refl, (tt, tt))

  module _ (lot_id : Uuid) (query : Queries) (in_tx : query.db ≡ tx) where
    insert_single-Inside : (d : SingleFileData) → Inside (insert_single H lot_id query d)
    unfolding insert_single Trace.effect
    insert_single-Inside d s = (_ ∷ [], refl, refl, (in_tx, tt))

    insert_multi-Inside : (d : MultipartFileData) → Inside (insert_multi H lot_id query d)
    unfolding insert_multi Trace.effect
    insert_multi-Inside d s = (_ ∷ [], refl, refl, (in_tx, tt))

    insert_identical-Inside :
        (files : List UploadFile) → Inside (insert_identical H files lot_id query)
    unfolding insert_identical Trace.effect
    insert_identical-Inside files s = (_ ∷ [], refl, refl, (in_tx, tt))

  -- The steps that are made of those.
  generated_key-Inside : Inside (generated_key H)
  unfolding generated_key
  generated_key-Inside = then_return (draw_uuid H) H.uuid_string draw_uuid-Inside

  open_multipart-Inside : Inside (open_multipart H)
  unfolding open_multipart
  open_multipart-Inside = then-Inside (generated_key H) _ generated_key-Inside λ text.
      then-Inside (lift (must_parse (H.uuid_parse text))) _
        (no_calls (must_parse (H.uuid_parse text)))
        λ key.
          then_return (generate_multi_part_upload_id H text) (λ id. (key, id))
            (then-Inside (create_upload H text) _ (create_upload-Inside text)
              λ id. no_calls (deref id))

  extract_one-Inside : (acc : ExtractFile) (file : UploadFile) → Inside (extract_one H acc file)
  unfolding extract_one
  extract_one-Inside acc file = elim (Bool-cases (ltb file.file_size multipart_threshold)) [
    | inl small ↦ rw small (λ s. ([], sym (append-nil s.log), refl, tt))
    | inr large ↦ rw large (then_return (open_multipart H) _ open_multipart-Inside)
  ]

  extract_from-Inside :
      (acc : ExtractFile) (files : List UploadFile) → Inside (extract_from H acc files)
  unfolding extract_from
  extract_from-Inside acc [] = Trace.Adds-return H IsInside acc
  extract_from-Inside acc (file ∷ files) =
      then-Inside (extract_one H acc file) _ (extract_one-Inside acc file)
        λ acc'. extract_from-Inside acc' files

  presign_part-Inside :
      (fail : GoError → GoError) (identity : UploadIdentity) (part : ℤ)
      → Inside (presign_part H fail identity part)
  unfolding presign_part
  presign_part-Inside fail identity part =
      then_return (presign_upload_part H fail identity part) _
        (presign_upload_part-Inside fail identity part)

  generate_new_multi_part_upload_urls-Inside :
      (identity : UploadIdentity) (parts : List ℤ)
      → Inside (generate_new_multi_part_upload_urls H identity parts)
  unfolding generate_new_multi_part_upload_urls
  generate_new_multi_part_upload_urls-Inside identity parts =
      each-Inside _ (presign_part-Inside _ identity) parts

  generate_existing_multi_part_presigned_url-Inside :
      (identity : UploadIdentity) (parts : List ℤ)
      → Inside (generate_existing_multi_part_presigned_url H identity parts)
  unfolding generate_existing_multi_part_presigned_url
  generate_existing_multi_part_presigned_url-Inside identity parts =
      each-Inside _ (presign_part-Inside _ identity) parts

  list_not_uploaded_parts-Inside :
      (identity : UploadIdentity) (parts : List ℤ)
      → Inside (list_not_uploaded_parts H identity parts)
  unfolding list_not_uploaded_parts
  list_not_uploaded_parts-Inside identity parts =
      then-Inside (list_parts_of H identity) _ (list_parts_of-Inside identity)
        λ listed. then_return (lift (uploaded_parts listed)) _ (no_calls (uploaded_parts listed))

  generate_resume_upload_urls-Inside :
      (identity : UploadIdentity) (parts : List ℤ)
      → Inside (generate_resume_upload_urls H identity parts)
  unfolding generate_resume_upload_urls
  generate_resume_upload_urls-Inside identity parts =
      then-Inside (or_fail (list_not_uploaded_parts H identity parts) resume_failure) _
        (Trace.Adds-or_fail H IsInside (list_not_uploaded_parts H identity parts) resume_failure
          (list_not_uploaded_parts-Inside identity parts))
        λ found.
          then_return (generate_existing_multi_part_presigned_url H identity found.0) _
            (generate_existing_multi_part_presigned_url-Inside identity found.0)

  presign_single-Inside :
      (rows : List InsertSinglePartUploadRow) (file : UploadFile)
      → Inside (presign_single H rows file)
  unfolding presign_single
  presign_single-Inside rows file =
      let key = H.uuid_string (storage_key_of rows file.sha256) in
      let checksum_of = encoded_or_fail file.sha256 (hex_to_base64 file.sha256) in
      then_return (generate_single_presigned_put_object_url H key file.sha256) _ (
        then-Inside (lift checksum_of) _ (no_calls checksum_of)
          λ checksum. then_return (presign_put H key checksum) _ (presign_put-Inside key checksum))

  presign_new-Inside :
      (files : GoMap UploadFile) (upload : NewMultipartGenerationData)
      → Inside (presign_new H files upload)
  unfolding presign_new
  presign_new-Inside files upload =
      let identity : UploadIdentity = record {
        storage_key = upload.storage_key;
        upload_id = upload.upload_id;
      } in
      then_return (generate_new_multi_part_upload_urls H identity upload.file_parts) _
        (generate_new_multi_part_upload_urls-Inside identity upload.file_parts)

  presign_resumable-Inside :
      (files : GoMap UploadFile) (upload : NewMultipartGenerationData)
      → Inside (presign_resumable H files upload)
  unfolding presign_resumable
  presign_resumable-Inside files upload =
      let identity : UploadIdentity = record {
        storage_key = upload.storage_key;
        upload_id = upload.upload_id;
      } in
      then_return (generate_resume_upload_urls H identity upload.file_parts) _
        (generate_resume_upload_urls-Inside identity upload.file_parts)

  module _ (lot_id : Uuid) (query : Queries) (in_tx : query.db ≡ tx) where
    create_single_presigned_file_url-Inside :
        (d : SingleFileData) → Inside (create_single_presigned_file_url H lot_id query d)
    unfolding create_single_presigned_file_url
    create_single_presigned_file_url-Inside d =
        then-Inside (insert_single H lot_id query d) _ (insert_single-Inside lot_id query in_tx d)
          λ rows.
            each-Inside (presign_single H rows) (presign_single-Inside rows) d.single_file_uploads

    create_multipart_presigned_file_url-Inside :
        (d : MultipartFileData) → Inside (create_multipart_presigned_file_url H lot_id query d)
    unfolding create_multipart_presigned_file_url generate_urls_for_new_uploads
        genrate_urls_for_resumable_uploads
    create_multipart_presigned_file_url-Inside d =
        let files = d.multi_file_upload_map in
        then-Inside (insert_multi H lot_id query d) _ (insert_multi-Inside lot_id query in_tx d)
          λ rows.
            let split = segregate_multi_upload_files H.uuid_string rows in
            then-Inside (lift split) _ (no_calls split) λ uploads.
              then-Inside (for_each (presign_new H files) uploads.0) _
                (each-Inside (presign_new H files) (presign_new-Inside files) uploads.0)
                λ new_urls. then_return (for_each (presign_resumable H files) uploads.1) _ (
                  each-Inside (presign_resumable H files) (presign_resumable-Inside files)
                    uploads.1)

    unless_empty-Inside :
        (column : List String) (m : Run H (List PresignedFileUrl))
        → Inside m
        → Inside (unless_empty H column m)
    unless_empty-Inside [] m h = Trace.Adds-return H IsInside {A = List PresignedFileUrl} []
    unless_empty-Inside (_ ∷ _) m h = h

    generate_s3_upload_url-Inside :
        (files : List UploadFile) → Inside (generate_s3_upload_url H files lot_id query)
    unfolding generate_s3_upload_url extract_file_data
    generate_s3_upload_url-Inside files =
        then-Inside (extract_from H empty_extract files) _ (extract_from-Inside empty_extract files)
          λ d.
            let single = create_single_presigned_file_url H lot_id query d.single_file in
            let multi = create_multipart_presigned_file_url H lot_id query d.multipart_file in
            let single_column = d.single_file.single_part_file_sha256s in
            let multi_column = d.multipart_file.multipart_file_sha256s in
            then-Inside (unless_empty H single_column single) _
              (unless_empty-Inside single_column single
                (create_single_presigned_file_url-Inside d.single_file))
              λ single_urls. then_return (unless_empty H multi_column multi) _ (
                unless_empty-Inside multi_column multi
                  (create_multipart_presigned_file_url-Inside d.multipart_file))

    -- Everything between the `defer` and the commit stays inside the transaction.
    pub prepare_upload-Inside :
        (files : List UploadFile) → Inside (prepare_upload H files lot_id query)
    unfolding prepare_upload skip_upload_for_identical_image_blobs range_file_map
    prepare_upload-Inside files =
        then-Inside (skip_upload_for_identical_image_blobs H files lot_id query) _
          (then-Inside (insert_identical H files lot_id query) _
            (insert_identical-Inside lot_id query in_tx files)
            λ rows s. ([], sym (append-nil s.log), refl, tt))
          λ split.
            then_return (generate_s3_upload_url H split.0 lot_id query) _
              (generate_s3_upload_url-Inside split.0)
