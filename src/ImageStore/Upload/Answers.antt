-- ===== src/ImageStore/Upload/Answers.antt =====
-- What a client is told about the files of its batch.
use mathlib.Core.List.{Perm, perm_append_comm}
use mathlib.Core.List.Perm
use be_auction_lot.Prelude.{
  String, Bool, not, List, [], ◌++◌, map, keep, keep-perm, ◌≡◌, ◌∙◌, sym, subst,
}
use be_auction_lot.Prelude.GoMap.{GoMap}
use be_auction_lot.Outcome
use be_auction_lot.Outcome.{ok, ok-injective}
use be_auction_lot.Action.{lift}
use be_auction_lot.Action.Steps.{>>=-eq-ok}
use be_auction_lot.Filestore.{Uuid, Queries, with_tx, tx, InsertIdenticalImageBlobsToLotImagesRow}
use be_auction_lot.ImageStore.Types.{UploadFile, UploadFileRequestResult, PresignedFileUrl}
use be_auction_lot.ImageStore.Host.{Host, State}
use be_auction_lot.ImageStore.Batch.{
  intent_batch_upload, existing_file_map, separate_uploaded_and_need_to_be_uploaded_files,
}
use be_auction_lot.ImageStore.Batch.Laws.{DistinctHashes, intent_batch_upload-partition}
use be_auction_lot.ImageStore.Batch.Hashes.{
  DistinctHashes-keep, DistinctHashes-perm, file_map-files, AllPass, AllPass-keep, AllPass-perm,
  AllPass-prefix,
}
use be_auction_lot.ImageStore.Batch.Split.{file_of, is_known, separate-eq-keep}
use be_auction_lot.ImageStore.Urls.{generate_s3_upload_url}
use be_auction_lot.ImageStore.Urls.Multi.{ReturnsHashes}
use be_auction_lot.ImageStore.Urls.Answers.{generate_s3_upload_url-answers}
use be_auction_lot.ImageStore.Upload.{
  file_map, range_file_map, insert_identical, skip_upload_for_identical_image_blobs, unknown_lot,
  deferring_rollback, begin_transaction, commit_transaction, prepare_upload, upload_in_transaction,
  initiate_upload,
}

-- A range over a map meets every entry once.
abbrev pub RangesOnce : Host → Type 0
RangesOnce H = (w : H.World) (m : GoMap UploadFile) → Perm (H.range_files w m) m

-- The files of the result, each in the list that says what became of it.
abbrev pub answered : UploadFileRequestResult → List UploadFile
answered r =
    r.duplicate_files
    ++ (r.already_uploaded_files ++ map (λ u. u.upload_file) r.presigned_file_urls)

-- The split of files with distinct hashes, met in any order.
pub separate-perm :
    (test : String → Bool) (files : List UploadFile) (entries : List (String × UploadFile))
    (existing : GoMap InsertIdenticalImageBlobsToLotImagesRow)
    (split : List UploadFile × List UploadFile)
    → DistinctHashes files
    → AllPass test files
    → Perm entries (file_map files [])
    → separate_uploaded_and_need_to_be_uploaded_files entries existing ≡ split
    → Perm (split.1 ++ split.0) files × DistinctHashes split.0 × AllPass test split.0
separate-perm test files entries existing split distinct pass ranged e =
    let met = map file_of entries in
    let all : Perm met files =
      subst (Perm met) (file_map-files files distinct) (Perm.map file_of ranged) in
    subst (λ x. Perm (x.1 ++ x.0) files × DistinctHashes x.0 × AllPass test x.0)
      (sym (separate-eq-keep entries existing) ∙ e)
      (
        Perm.trans
            (perm_append_comm (keep (is_known existing) met)
              (keep (λ f. not (is_known existing f)) met))
            (Perm.trans (keep-perm (is_known existing) met) all),
        DistinctHashes-keep (λ f. not (is_known existing f)) met
            (DistinctHashes-perm files met (Perm.symm all) distinct),
        AllPass-keep test (λ f. not (is_known existing f)) met
            (AllPass-perm test files met (Perm.symm all) pass),
      )

-- The test holds of the chosen files too.
pub chosen_pass :
    (test : String → Bool) (files : List UploadFile)
    → AllPass test files
    → AllPass test (intent_batch_upload files).0
chosen_pass test files pass =
    let batch = intent_batch_upload files in
    AllPass-prefix test batch.0 batch.1 (
      AllPass-perm test files (batch.0 ++ batch.1)
        (Perm.symm (intent_batch_upload-partition files).0) pass)

module _ (H : Host) (ranges : RangesOnce H) (test : String → Bool)
    (returns : ReturnsHashes H test) where
  skip-answers :
      (files : List UploadFile) (lot_id : Uuid) (query : Queries) (s : State H)
      (split : List UploadFile × List UploadFile)
      → DistinctHashes files
      → AllPass test files
      → (skip_upload_for_identical_image_blobs H files lot_id query s).0 ≡ ok split
      → Perm (split.1 ++ split.0) files × DistinctHashes split.0 × AllPass test split.0
  unfolding skip_upload_for_identical_image_blobs range_file_map
  skip-answers files lot_id query s split distinct pass e =
      let (rows, _, e₁) = >>=-eq-ok (insert_identical H files lot_id query) _ s split e in
      let s₁ = (insert_identical H files lot_id query s).1 in
      separate-perm test files (H.range_files s₁.world (file_map files []))
        (existing_file_map rows []) split distinct pass (ranges s₁.world (file_map files []))
        (ok-injective _ split e₁)

  prepare-answers :
      (files : List UploadFile) (lot_id : Uuid) (query : Queries) (s : State H)
      (x : List UploadFile × List PresignedFileUrl)
      → DistinctHashes files
      → AllPass test files
      → (prepare_upload H files lot_id query s).0 ≡ ok x
      → Perm (x.0 ++ map (λ u. u.upload_file) x.1) files
  unfolding prepare_upload
  prepare-answers files lot_id query s x distinct pass e =
      let skip = skip_upload_for_identical_image_blobs H files lot_id query in
      let ((needed, already), skipped, e₁) = >>=-eq-ok skip _ s x e in
      let (parted, others, passed) =
        skip-answers files lot_id query s (needed, already) distinct pass skipped in
      let (urls, made, e₂) =
        >>=-eq-ok (generate_s3_upload_url H needed lot_id query) _ (skip s).1 x e₁ in
      subst (λ y. Perm (y.0 ++ map (λ u. u.upload_file) y.1) files)
        (ok-injective (already, urls) x e₂)
        (Perm.trans
          (Perm.append_left already (
            generate_s3_upload_url-answers H test returns needed lot_id query (skip s).1 urls others
              passed made))
          parted)

  upload-answers :
      (files duplicates : List UploadFile) (lot_id : Uuid) (query : Queries) (s : State H)
      (r : UploadFileRequestResult)
      → DistinctHashes files
      → AllPass test files
      → (upload_in_transaction H files duplicates lot_id query s).0 ≡ ok r
      → Perm (answered r) (duplicates ++ files)
  unfolding upload_in_transaction
  upload-answers files duplicates lot_id query s r distinct pass e =
      let (x, prepared, e₁) = >>=-eq-ok (prepare_upload H files lot_id query) _ s r e in
      let s₁ = (prepare_upload H files lot_id query s).1 in
      let (_, _, e₂) = >>=-eq-ok (commit_transaction H) _ s₁ r e₁ in
      subst (λ q. Perm (answered q) (duplicates ++ files)) (ok-injective _ r e₂)
        (Perm.append_left duplicates
          (prepare-answers files lot_id query s x distinct pass prepared))

  -- If a range over a map meets every entry once, and the multipart insert answers with one row for
  -- each hash that it is sent, in order, if these pass a test, then an upload of files whose
  -- hashes pass it that ends well names every file of the batch
  -- exactly once: as a duplicate, as already uploaded, or with an url.
  pub initiate_upload-answers :
      (query : Queries) (files : List UploadFile) (lot_id : String) (s : State H)
      (r : UploadFileRequestResult)
      → AllPass test files
      → (initiate_upload H query files lot_id s).0 ≡ ok r
      → Perm (answered r) files
  unfolding initiate_upload deferring_rollback
  initiate_upload-answers query files lot_id s r pass e =
      let (chosen, duplicates) = intent_batch_upload files in
      let (all, distinct, _) = intent_batch_upload-partition files in
      let (id, _, e₁) =
        >>=-eq-ok (lift (Outcome.map_err unknown_lot (H.uuid_parse lot_id))) _ s r e in
      let (_, _, e₂) = >>=-eq-ok (begin_transaction H) _ s r e₁ in
      Perm.trans
        (upload-answers chosen duplicates id (with_tx query tx) (begin_transaction H s).1 r distinct
          (chosen_pass test files pass) e₂)
        (Perm.trans (perm_append_comm duplicates chosen) all)
