-- ===== src/ImageStore/Urls/Total.antt =====
-- When the urls of a batch are made: with a host that answers.
use be_auction_lot.Prelude.{
  String, true, some, List, [], ◌∷◌, All, ◌≡◌, refl, sym, ap, subst, Option-cases, inl, inr, arith,
}
use be_auction_lot.Prelude.Int.{ℤ, int32_of_int}
use be_auction_lot.AppError.{GoError}
use be_auction_lot.Outcome
use be_auction_lot.Outcome.{Outcome, ok}
use be_auction_lot.Action.{lift, or_fail, for_each}
use be_auction_lot.Action.Succeeds.{
  Succeeds, Succeeds-return, Succeeds-lift, Succeeds-or_fail, Succeeds->>=_if, Succeeds->>=,
  Succeeds-for_each,
}
use be_auction_lot.Action.Steps.{or_fail-ok}
use be_auction_lot.ImageStore.Queries.{
  insert_single_part_upload, insert_and_validate_multi_part_upload,
}
use be_auction_lot.Encoding.{hex_to_base64}
use be_auction_lot.Filestore.{Uuid, Queries, InsertSinglePartUploadRow}
use be_auction_lot.ImageStore.Types.{
  UploadFile, PresignedFileUrl, SingleFileData, MultipartFileData, NewMultipartGenerationData,
  UploadIdentity, bucket_name,
}
use be_auction_lot.ImageStore.Host.{
  Host, Run, call, presigned_put, presigned_part, inserted_single, inserted_multi,
}
use be_auction_lot.ImageStore.Batch.{segregate_multi_upload_files}
use be_auction_lot.ImageStore.Batch.Split.{HasPointers, segregate_multi_upload_files-split}
use be_auction_lot.ImageStore.Batch.Hashes.{AllPass, AllPass-keep}
use be_auction_lot.ImageStore.Extract.{extract_file_data}
use be_auction_lot.ImageStore.Extract.Laws.{is_small, IsExtract, extract_file_data-IsExtract}
use be_auction_lot.ImageStore.Extract.Total.{extract_file_data_total}
use be_auction_lot.ImageStore.Parts.{
  presign_part, presign_upload_part, uploaded_parts, list_parts_of, list_not_uploaded_parts,
  generate_new_multi_part_upload_urls, generate_existing_multi_part_presigned_url,
  generate_resume_upload_urls,
}
use be_auction_lot.ImageStore.Urls.{
  storage_key_of, encoded_or_fail, presign_put, generate_single_presigned_put_object_url,
  presign_single, insert_single, single_params, multi_params, create_single_presigned_file_url,
  presign_new, presign_resumable, generate_urls_for_new_uploads, genrate_urls_for_resumable_uploads,
  insert_multi, create_multipart_presigned_file_url, unless_empty, generate_s3_upload_url,
}
use be_auction_lot.ImageStore.Urls.Serves.{
  HasEtag, is_hex, Serves, uploaded_parts-ok, call_rows-ok, All-any,
}

module _ (H : Host) (serves : Serves H) where
  presign_put-total : (key checksum : String) → Succeeds (presign_put H key checksum)
  unfolding presign_put call
  presign_put-total key checksum =
      Succeeds-or_fail
        (call H (presigned_put key checksum) (H.presign_put_object bucket_name key checksum)) _
        (λ s. serves.puts key checksum s.world)

  encoded-ok :
      (h : String) → is_hex h ≡ true → (t : String) × (encoded_or_fail h (hex_to_base64 h) ≡ ok t)
  encoded-ok h e = elim (Option-cases (hex_to_base64 h)) [
    | inl bad ↦ absurd (ground (arith, e, bad))
    | inr (t, good) ↦ (t, rw good refl)
  ]

  presign_single-total :
      (rows : List InsertSinglePartUploadRow) (file : UploadFile)
      → is_hex file.sha256 ≡ true
      → Succeeds (presign_single H rows file)
  unfolding presign_single generate_single_presigned_put_object_url
  presign_single-total rows file hex =
      let key = H.uuid_string (storage_key_of rows file.sha256) in
      let (t, e) = encoded-ok file.sha256 hex in
      Succeeds->>= (generate_single_presigned_put_object_url H key file.sha256) _
        (Succeeds->>= (lift (encoded_or_fail file.sha256 (hex_to_base64 file.sha256))) _
          (Succeeds-lift _ t e)
          λ checksum.
            Succeeds->>= (presign_put H key checksum) _ (presign_put-total key checksum)
              λ url. Succeeds-return _)
        λ url. Succeeds-return _

  create_single-total :
      (lot_id : Uuid) (query : Queries) (d : SingleFileData)
      → AllPass is_hex d.single_file_uploads
      → Succeeds (create_single_presigned_file_url H lot_id query d)
  unfolding create_single_presigned_file_url insert_single
  create_single-total lot_id query d hex =
      Succeeds->>= (insert_single H lot_id query d) _
        (Succeeds-or_fail (insert_single_part_upload H query (single_params H lot_id d)) _ λ s.
          let arg = single_params H lot_id d in
          let (rows, e) = serves.single query.db arg s.world in
          (
            rows,
            call_rows-ok (inserted_single query.db arg) (H.query_insert_single query.db arg) s rows
                e,
          ))
        λ rows.
          Succeeds-for_each (λ f. is_hex f.sha256 ≡ true) (presign_single H rows)
            (presign_single-total rows) d.single_file_uploads hex

  presign_part-total :
      (fail : GoError → GoError) (identity : UploadIdentity) (part : ℤ)
      → Succeeds (presign_part H fail identity part)
  unfolding presign_part presign_upload_part call
  presign_part-total fail identity part =
      Succeeds->>= (presign_upload_part H fail identity part) _
        (Succeeds-or_fail
          (call H (presigned_part identity.storage_key (int32_of_int part) identity.upload_id) (
            H.presign_upload_part bucket_name identity.storage_key (int32_of_int part)
              identity.upload_id))
          _
          λ s. serves.presigns identity.storage_key (int32_of_int part) identity.upload_id s.world)
        λ url. Succeeds-return _

  parts-total :
      (fail : GoError → GoError) (identity : UploadIdentity) (parts : List ℤ)
      → Succeeds (for_each (presign_part H fail identity) parts)
  parts-total fail identity parts =
      Succeeds-for_each (λ _. Unit {0}) (presign_part H fail identity)
        (λ part _. presign_part-total fail identity part) parts (All-any parts)

  presign_new-total :
      (files : _) (u : NewMultipartGenerationData) → Succeeds (presign_new H files u)
  unfolding presign_new generate_new_multi_part_upload_urls
  presign_new-total files u =
      Succeeds->>= (generate_new_multi_part_upload_urls H _ u.file_parts) _
        (parts-total _ _ u.file_parts) λ requests. Succeeds-return _

  list_not_uploaded-total :
      (identity : UploadIdentity) (all_parts : List ℤ)
      → Succeeds (list_not_uploaded_parts H identity all_parts)
  unfolding list_not_uploaded_parts list_parts_of call
  list_not_uploaded-total identity all_parts =
      Succeeds->>=_if (All HasEtag) (list_parts_of H identity) _
        (λ s.
          let (ps, e, tagged) =
            serves.lists identity.storage_key (some identity.upload_id) s.world in
          (ps, ap (Outcome.map_err _) e, tagged))
        λ ps tagged.
          let (tags, read) = uploaded_parts-ok ps tagged in
          Succeeds->>= (lift (uploaded_parts ps)) _ (Succeeds-lift _ tags read)
            λ etags. Succeeds-return _

  presign_resumable-total :
      (files : _) (u : NewMultipartGenerationData) → Succeeds (presign_resumable H files u)
  unfolding presign_resumable generate_resume_upload_urls generate_existing_multi_part_presigned_url
  presign_resumable-total files u =
      let identity : UploadIdentity = record {
        storage_key = u.storage_key;
        upload_id = u.upload_id;
      } in
      Succeeds->>= (generate_resume_upload_urls H identity u.file_parts) _
        (Succeeds->>= (or_fail (list_not_uploaded_parts H identity u.file_parts) _) _
          (Succeeds-or_fail (list_not_uploaded_parts H identity u.file_parts) _
            (list_not_uploaded-total identity u.file_parts))
          λ found.
            Succeeds->>= (generate_existing_multi_part_presigned_url H identity found.0) _
              (parts-total _ _ found.0) λ requests. Succeeds-return _)
        λ found. Succeeds-return _

  create_multipart-total :
      (lot_id : Uuid) (query : Queries) (d : MultipartFileData)
      → Succeeds (create_multipart_presigned_file_url H lot_id query d)
  unfolding create_multipart_presigned_file_url insert_multi generate_urls_for_new_uploads
      genrate_urls_for_resumable_uploads
  create_multipart-total lot_id query d =
      Succeeds->>=_if (All HasPointers) (insert_multi H lot_id query d) _
        (λ s.
          let arg = multi_params H lot_id d in
          let (rows, e, pointed) = serves.multi query.db arg s.world in
          (
            rows,
            or_fail-ok (insert_and_validate_multi_part_upload H query arg) _ s rows (
                call_rows-ok (inserted_multi query.db arg) (H.query_insert_multi query.db arg) s
                  rows e),
            pointed,
          ))
        λ rows pointed.
          Succeeds->>= (lift (segregate_multi_upload_files H.uuid_string rows)) _
            (Succeeds-lift _ _ (segregate_multi_upload_files-split H.uuid_string rows pointed))
            λ split.
              Succeeds->>= (for_each (presign_new H d.multi_file_upload_map) split.0) _
                (Succeeds-for_each (λ _. Unit {0}) _ (λ u _. presign_new-total _ u) split.0
                  (All-any split.0))
                λ news.
                  Succeeds->>= (for_each (presign_resumable H d.multi_file_upload_map) split.1) _
                    (Succeeds-for_each (λ _. Unit {0}) _ (λ u _. presign_resumable-total _ u)
                      split.1 (All-any split.1))
                    λ olds. Succeeds-return _

  unless_empty-total :
      (hashes : List String) (m : Run H (List PresignedFileUrl))
      → Succeeds m
      → Succeeds (unless_empty H hashes m)
  unless_empty-total [] m h = Succeeds-return []
  unless_empty-total (_ ∷ _) m h = h

  -- With a host that answers, and hashes in hex text, the urls are made.
  pub generate_s3_upload_url_total :
      (files : List UploadFile) (lot_id : Uuid) (query : Queries)
      → AllPass is_hex files
      → Succeeds (generate_s3_upload_url H files lot_id query)
  unfolding generate_s3_upload_url
  generate_s3_upload_url_total files lot_id query hex =
      Succeeds->>=_if (IsExtract files) (extract_file_data H files) _
        (λ s.
          let (d, e) = extract_file_data_total H serves.ready files s in
          (d, e, extract_file_data-IsExtract H files s d e))
        λ d columns.
          let small =
            subst (λ c. AllPass is_hex c.single_file_uploads) (sym columns.single)
              (AllPass-keep is_hex is_small files hex) in
          let singles = create_single_presigned_file_url H lot_id query d.single_file in
          let multis = create_multipart_presigned_file_url H lot_id query d.multipart_file in
          Succeeds->>= (unless_empty H d.single_file.single_part_file_sha256s singles) _
            (unless_empty-total d.single_file.single_part_file_sha256s singles
              (create_single-total lot_id query d.single_file small))
            λ single_urls.
              Succeeds->>= (unless_empty H d.multipart_file.multipart_file_sha256s multis) _
                (unless_empty-total d.multipart_file.multipart_file_sha256s multis
                  (create_multipart-total lot_id query d.multipart_file))
                λ multi_urls. Succeeds-return _
