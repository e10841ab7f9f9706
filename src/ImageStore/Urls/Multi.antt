-- ===== src/ImageStore/Urls/Multi.antt =====
-- Which files the urls of the multipart insert are for.
use mathlib.Core.List.{Perm, map-map}
use mathlib.Core.List.Perm
use be_auction_lot.Prelude.{
  String, Bool, true, List, [], ◌++◌, map, All, ◌≡◌, refl, ◌∙◌, ap, ap₂, sym, subst, map-append,
  append-nil,
}
use be_auction_lot.Prelude.Int.{ℤ}
use be_auction_lot.Prelude.GoMap.{GoMap}
use be_auction_lot.Outcome.{ok, ok-injective}
use be_auction_lot.Action.{for_each, lift}
use be_auction_lot.Action.Ensures.{
  Ensures, Ensures-holds, Ensures->>=, Ensures-any, Ensures-return, Ensures-for_each, Each,
  Each-map,
}
use be_auction_lot.Action.Steps.{>>=-eq-ok, or_fail-eq-ok}
use be_auction_lot.Filestore.{
  Uuid, Queries, Dbtx, InsertAndValidateMultiPartUploadRow, InsertAndValidateMultiPartUploadParams,
}
use be_auction_lot.Filestore.Rows.{ResultSet, collect_rows}
use be_auction_lot.ImageStore.Queries.{insert_and_validate_multi_part_upload}
use be_auction_lot.ImageStore.Types.{
  UploadFile, PresignedFileUrl, MultipartFileData, NewMultipartGenerationData,
}
use be_auction_lot.ImageStore.Batch.{segregate_multi_upload_files}
use be_auction_lot.ImageStore.Host.{Host, State, Run, call, call_rows}
use be_auction_lot.ImageStore.Parts.{
  generate_new_multi_part_upload_urls, generate_resume_upload_urls,
}
use be_auction_lot.ImageStore.Urls.{
  presign_new, presign_resumable, generate_urls_for_new_uploads, genrate_urls_for_resumable_uploads,
  insert_multi, multi_params, create_multipart_presigned_file_url,
}
use be_auction_lot.ImageStore.Urls.Tags.{
  named, tag, row_tag, url_tag, named_tag, answer_to, tags_of, bind-ok, segregate_from-tags,
}

module _ (H : Host) where
  presign_new-tag :
      (files : GoMap UploadFile) (u : NewMultipartGenerationData)
      → Ensures (λ r. url_tag r ≡ named_tag files (tag u)) (presign_new H files u)
  unfolding presign_new
  presign_new-tag files u =
      let urls =
        generate_new_multi_part_upload_urls H
          (record { storage_key = u.storage_key; upload_id = u.upload_id }) u.file_parts in
      Ensures->>= (λ _. Unit {0}) (λ r. url_tag r ≡ named_tag files (tag u)) urls _
        (Ensures-any urls)
        λ requests _. Ensures-return (λ r. url_tag r ≡ named_tag files (tag u)) _ refl

  presign_resumable-tag :
      (files : GoMap UploadFile) (u : NewMultipartGenerationData)
      → Ensures (λ r. url_tag r ≡ named_tag files (tag u)) (presign_resumable H files u)
  unfolding presign_resumable
  presign_resumable-tag files u =
      let urls =
        generate_resume_upload_urls H
          (record { storage_key = u.storage_key; upload_id = u.upload_id }) u.file_parts in
      Ensures->>= (λ _. Unit {0}) (λ r. url_tag r ≡ named_tag files (tag u)) urls _
        (Ensures-any urls)
        λ found _. Ensures-return (λ r. url_tag r ≡ named_tag files (tag u)) _ refl

  -- A loop that makes the urls of one upload each.
  loop-tags :
      (files : GoMap UploadFile) (f : NewMultipartGenerationData → Run H PresignedFileUrl)
      → ((u : NewMultipartGenerationData)
          → Ensures (λ r. url_tag r ≡ named_tag files (tag u)) (f u))
      → (us : List NewMultipartGenerationData) (s : State H) (urls : List PresignedFileUrl)
      → (for_each f us s).0 ≡ ok urls
      → map url_tag urls ≡ map (λ u. named_tag files (tag u)) us
  loop-tags files f h us s urls e =
      Each-map url_tag (λ u. named_tag files (tag u)) us urls
        (Ensures-holds (Each (λ u r. url_tag r ≡ named_tag files (tag u)) us) (for_each f us)
          (Ensures-for_each (λ u r. url_tag r ≡ named_tag files (tag u)) f h us) s urls e)

  together-tags :
      (files : GoMap UploadFile) (n r : List NewMultipartGenerationData)
      (rows : List InsertAndValidateMultiPartUploadRow) (news olds urls : List PresignedFileUrl)
      → map url_tag news ≡ map (λ u. named_tag files (tag u)) n
      → map url_tag olds ≡ map (λ u. named_tag files (tag u)) r
      → Perm (tags_of (n, r)) (map row_tag rows ++ [])
      → news ++ olds ≡ urls
      → Perm (map url_tag urls) (map (answer_to files) rows)
  together-tags files n r rows news olds urls made resumed split joined =
      subst (λ l. Perm l (map (answer_to files) rows))
        (sym (
          ap (map url_tag) (sym joined)
          ∙ (map-append url_tag news olds
              ∙ (ap₂ ◌++◌ made resumed
                  ∙ (sym (map-append (λ u. named_tag files (tag u)) n r)
                      ∙ sym (map-map (named_tag files) tag (n ++ r)))))))
        (subst (Perm (map (named_tag files) (tags_of (n, r))))
          (map-map (named_tag files) row_tag rows)
          (Perm.map (named_tag files)
            (subst (λ l. Perm (tags_of (n, r)) l) (append-nil (map row_tag rows)) split)))

  -- There is one url for each row of the insert, with its attempt, for the file that the map has
  -- under its hash.
  pub create_multipart_presigned_file_url-rows :
      (lot_id : Uuid) (query : Queries) (d : MultipartFileData) (s : State H)
      (urls : List PresignedFileUrl)
      → (create_multipart_presigned_file_url H lot_id query d s).0 ≡ ok urls
      → (rows : List InsertAndValidateMultiPartUploadRow) × ((insert_multi H lot_id query d s).0
          ≡ ok rows)
        × Perm (map url_tag urls) (map (answer_to d.multi_file_upload_map) rows)
  unfolding create_multipart_presigned_file_url segregate_multi_upload_files
      generate_urls_for_new_uploads genrate_urls_for_resumable_uploads
  create_multipart_presigned_file_url-rows lot_id query d s urls e =
      let files = d.multi_file_upload_map in
      let (rows, inserted, e₁) = >>=-eq-ok (insert_multi H lot_id query d) _ s urls e in
      let s₁ = (insert_multi H lot_id query d s).1 in
      let ((n, r), split, e₂) =
        >>=-eq-ok (lift (segregate_multi_upload_files H.uuid_string rows)) _ s₁ urls e₁ in
      let (news, made, e₃) = >>=-eq-ok (for_each (presign_new H files) n) _ s₁ urls e₂ in
      let s₂ = (for_each (presign_new H files) n s₁).1 in
      let (olds, resumed, e₄) = >>=-eq-ok (for_each (presign_resumable H files) r) _ s₂ urls e₃ in
      (
        rows,
        inserted,
        together-tags files n r rows news olds urls
            (loop-tags files (presign_new H files) (presign_new-tag files) n s₁ news made)
            (loop-tags files (presign_resumable H files) (presign_resumable-tag files) r s₂ olds
              resumed)
            (segregate_from-tags H.uuid_string rows ([], []) (n, r) split)
            (ok-injective (news ++ olds) urls e₄),
      )

  -- What the insert was asked, and what it answered.
  pub insert_multi-answered :
      (lot_id : Uuid) (query : Queries) (d : MultipartFileData) (s : State H)
      (rows : List InsertAndValidateMultiPartUploadRow)
      → (insert_multi H lot_id query d s).0 ≡ ok rows
      → (found : ResultSet InsertAndValidateMultiPartUploadRow) × ((H.query_insert_multi query.db
            (multi_params H lot_id d)
            s.world).0
          ≡ ok found)
        × (collect_rows found ≡ ok rows)
  unfolding insert_multi call_rows call
  insert_multi-answered lot_id query d s rows e =
      let asked = or_fail-eq-ok (insert_and_validate_multi_part_upload H query _) _ s rows e in
      bind-ok (H.query_insert_multi query.db (multi_params H lot_id d) s.world).0 collect_rows rows
        asked

-- The multipart insert answers with one row for each hash that it is sent, in order, if the hashes
-- pass a test.
abbrev pub ReturnsHashes : Host → (String → Bool) → Type 0
ReturnsHashes H test =
    (db : Dbtx) (arg : InsertAndValidateMultiPartUploadParams) (w : H.World)
    (found : ResultSet InsertAndValidateMultiPartUploadRow)
    (rows : List InsertAndValidateMultiPartUploadRow)
    → All (λ h. test h ≡ true) arg.sha256s
    → (H.query_insert_multi db arg w).0 ≡ ok found
    → collect_rows found ≡ ok rows
    → map (λ r. r.sha256) rows ≡ arg.sha256s

module _ (H : Host) (test : String → Bool) (returns : ReturnsHashes H test) where
  -- The urls are for the files that the map has under the hashes that were sent.
  pub create_multipart_presigned_file_url-files :
      (lot_id : Uuid) (query : Queries) (d : MultipartFileData) (s : State H)
      (urls : List PresignedFileUrl)
      → All (λ h. test h ≡ true) d.multipart_file_sha256s
      → (create_multipart_presigned_file_url H lot_id query d s).0 ≡ ok urls
      → Perm
          (map (λ r. r.upload_file) urls)
          (map (named d.multi_file_upload_map) d.multipart_file_sha256s)
  create_multipart_presigned_file_url-files lot_id query d s urls pass e =
      let files = d.multi_file_upload_map in
      let (rows, inserted, made) =
        create_multipart_presigned_file_url-rows H lot_id query d s urls e in
      let (found, answered, collected) = insert_multi-answered H lot_id query d s rows inserted in
      let hashes =
        returns query.db (multi_params H lot_id d) s.world found rows pass answered collected in
      subst (λ l. Perm l (map (named files) d.multipart_file_sha256s))
        (map-map (λ (t : UploadFile × ℤ). t.0) url_tag urls)
        (subst (Perm (map (λ (t : UploadFile × ℤ). t.0) (map url_tag urls)))
          (map-map (λ (t : UploadFile × ℤ). t.0) (answer_to files) rows
            ∙ (sym (map-map (named files) (λ r. r.sha256) rows) ∙ ap (map (named files)) hashes))
          (Perm.map (λ t. t.0) made))
