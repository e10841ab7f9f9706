-- ===== src/ImageStore/Urls/Answers.antt =====
-- The files of the urls that `generateS3UploadUrl` makes, from both inserts.
use mathlib.Core.List.{Perm, perm_append_comm}
use mathlib.Core.List.Perm
use be_auction_lot.Prelude.{
  String, Bool, true, All, List, [], ◌∷◌, ◌++◌, map, keep, keep-perm, ◌≡◌, refl, ◌∙◌, ap, ap₂, sym,
  subst, map-append,
}
use be_auction_lot.Outcome.{ok, ok-injective}
use be_auction_lot.Filestore.{Uuid, Queries}
use be_auction_lot.ImageStore.Types.{UploadFile, PresignedFileUrl, MultipartFileData}
use be_auction_lot.ImageStore.Host.{Host, State}
use be_auction_lot.ImageStore.Batch.Laws.{DistinctHashes}
use be_auction_lot.ImageStore.Batch.Hashes.{
  DistinctHashes-keep, by_hash-finds, AllPass, AllPass-keep, AllPass-hashes,
}
use be_auction_lot.ImageStore.Extract.Laws.{is_small, is_large, HasColumns}
use be_auction_lot.ImageStore.Urls.{
  unless_empty, create_multipart_presigned_file_url, generate_s3_upload_url,
}
use be_auction_lot.ImageStore.Urls.Laws.{generate_s3_upload_url-Made}
use be_auction_lot.ImageStore.Urls.Tags.{named}
use be_auction_lot.ImageStore.Urls.Multi.{ReturnsHashes, create_multipart_presigned_file_url-files}

module _ (H : Host) (test : String → Bool) (returns : ReturnsHashes H test) where
  -- The multipart urls, by the column of the hashes.
  unless_empty-multi :
      (hashes : List String) (lot_id : Uuid) (query : Queries) (d : MultipartFileData) (s : State H)
      (urls : List PresignedFileUrl)
      → All (λ h. test h ≡ true) d.multipart_file_sha256s
      → d.multipart_file_sha256s ≡ hashes
      → (unless_empty H hashes (create_multipart_presigned_file_url H lot_id query d) s).0 ≡ ok urls
      → Perm (map (λ u. u.upload_file) urls) (map (named d.multi_file_upload_map) hashes)
  unless_empty-multi [] lot_id query d s urls pass same e =
      subst (λ l. Perm (map (λ u. u.upload_file) l) []) (ok-injective [] urls e) (Perm.refl [])
  unless_empty-multi (h ∷ hs) lot_id query d s urls pass same e =
      subst (λ l. Perm (map (λ u. u.upload_file) urls) (map (named d.multi_file_upload_map) l)) same
        (create_multipart_presigned_file_url-files H test returns lot_id query d s urls pass e)

  multi-answers :
      (fs : List UploadFile) (lot_id : Uuid) (query : Queries) (d : MultipartFileData) (s : State H)
      (urls : List PresignedFileUrl)
      → DistinctHashes fs
      → AllPass test fs
      → HasColumns fs d
      → (unless_empty H d.multipart_file_sha256s
          (create_multipart_presigned_file_url H lot_id query d)
          s).0
        ≡ ok urls
      → Perm (map (λ u. u.upload_file) urls) fs
  multi-answers fs lot_id query d s urls distinct pass columns e =
      subst (Perm (map (λ u. u.upload_file) urls))
        (ap₂ (λ m hs. map (named m) hs) columns.files columns.sha256s
          ∙ by_hash-finds fs [] distinct)
        (unless_empty-multi d.multipart_file_sha256s lot_id query d s urls
          (subst (All (λ h. test h ≡ true)) (sym columns.sha256s) (AllPass-hashes test fs pass))
          refl e)

  -- If the urls for files with distinct hashes, which pass the test, are made, there is exactly one for each file.
  pub generate_s3_upload_url-answers :
      (files : List UploadFile) (lot_id : Uuid) (query : Queries) (s : State H)
      (urls : List PresignedFileUrl)
      → DistinctHashes files
      → AllPass test files
      → (generate_s3_upload_url H files lot_id query s).0 ≡ ok urls
      → Perm (map (λ u. u.upload_file) urls) files
  generate_s3_upload_url-answers files lot_id query s urls distinct pass e =
      let made = generate_s3_upload_url-Made H files lot_id query s urls e in
      let multi =
        multi-answers (keep is_large files) lot_id query made.columns.multipart_file made.after
          made.multis (DistinctHashes-keep is_large files distinct)
          (AllPass-keep test is_large files pass) made.extracts.multipart made.large in
      let same : map (λ u. u.upload_file) urls
          ≡ keep is_small files ++ map (λ u. u.upload_file) made.multis =
        ap (map (λ u. u.upload_file)) (sym made.joined)
        ∙ (map-append (λ u. u.upload_file) made.singles made.multis
            ∙ ap (λ l. l ++ map (λ u. u.upload_file) made.multis) made.small) in
      rw same (
        Perm.trans (Perm.append_left (keep is_small files) multi) (
          Perm.trans (perm_append_comm (keep is_small files) (keep is_large files))
            (keep-perm is_small files)))
