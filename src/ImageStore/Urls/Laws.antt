-- ===== src/ImageStore/Urls/Laws.antt =====
-- Which files the presigned urls are for.
use mathlib.Core.List.{Perm, map-id}
use be_auction_lot.Prelude.{List, [], ◌∷◌, ◌++◌, map, keep, ◌≡◌, refl, ◌∙◌, ap, sym, subst}
use be_auction_lot.Outcome.{ok, ok-injective}
use be_auction_lot.Action.{for_each}
use be_auction_lot.Action.Ensures.{
  Ensures, Ensures-holds, Ensures->>=, Ensures-any, Ensures-return, Ensures-for_each, Each,
  Each-map,
}
use be_auction_lot.Action.Steps.{>>=-eq-ok}
use be_auction_lot.Filestore.{
  Uuid, Queries, InsertSinglePartUploadRow, InsertAndValidateMultiPartUploadParams,
  InsertAndValidateMultiPartUploadRow,
}
use be_auction_lot.Filestore.Rows.{ResultSet, collect_rows}
use be_auction_lot.ImageStore.Types.{
  UploadFile, PresignedFileUrl, SingleFileData, ExtractFile, zero_multi,
}
use be_auction_lot.ImageStore.Host.{Host, State}
use be_auction_lot.ImageStore.Extract.{extract_file_data}
use be_auction_lot.ImageStore.Extract.Laws.{
  is_small, by_hash, IsExtract, single_columns, extract_file_data-IsExtract,
}
use be_auction_lot.ImageStore.Urls.{
  storage_key_of, generate_single_presigned_put_object_url, presign_single, insert_single,
  create_single_presigned_file_url, create_multipart_presigned_file_url, unless_empty,
  generate_s3_upload_url,
}
use be_auction_lot.ImageStore.Urls.Tags.{url_tag, answer_to}

module _ (H : Host) where
  presign_single-file :
      (rows : List InsertSinglePartUploadRow) (file : UploadFile)
      → Ensures (λ r. r.upload_file ≡ file) (presign_single H rows file)
  unfolding presign_single
  presign_single-file rows file =
      let url_of =
        generate_single_presigned_put_object_url H (H.uuid_string (storage_key_of rows file.sha256))
          file.sha256 in
      Ensures->>= (λ _. Unit {0}) (λ r. r.upload_file ≡ file) url_of _ (Ensures-any url_of)
        λ url _.
          Ensures-return (λ r. r.upload_file ≡ file)
            (record {
              upload_file = file;
              presigned_upload_url = record { single = url; multi = zero_multi };
            })
            refl

  create_single_presigned_file_url-files :
      (lot_id : Uuid) (query : Queries) (d : SingleFileData) (s : State H)
      (urls : List PresignedFileUrl)
      → (create_single_presigned_file_url H lot_id query d s).0 ≡ ok urls
      → map (λ u. u.upload_file) urls ≡ d.single_file_uploads
  unfolding create_single_presigned_file_url
  create_single_presigned_file_url-files lot_id query d s urls e =
      let (rows, _, e') = >>=-eq-ok (insert_single H lot_id query d) _ s urls e in
      Each-map (λ u. u.upload_file) (λ f. f) d.single_file_uploads urls
        (Ensures-holds (Each (λ f r. r.upload_file ≡ f) d.single_file_uploads)
          (for_each (presign_single H rows) d.single_file_uploads)
          (Ensures-for_each (λ f r. r.upload_file ≡ f) (presign_single H rows)
            (presign_single-file rows) d.single_file_uploads)
          (insert_single H lot_id query d s).1 urls e')
      ∙ map-id d.single_file_uploads

  unless_empty-files :
      (fs : List UploadFile) (lot_id : Uuid) (query : Queries) (s : State H)
      (urls : List PresignedFileUrl)
      → (unless_empty H
          (map (λ f. f.sha256) fs)
          (create_single_presigned_file_url H lot_id query (single_columns fs))
          s).0
        ≡ ok urls
      → map (λ u. u.upload_file) urls ≡ fs
  unless_empty-files [] lot_id query s urls e =
      ap (map (λ u. u.upload_file)) (sym (ok-injective [] urls e))
  unless_empty-files (f ∷ fs) lot_id query s urls e =
      create_single_presigned_file_url-files lot_id query (single_columns (f ∷ fs)) s urls e

  -- The urls of a batch, by the insert that they come from.
  pub record Made (files : List UploadFile) (lot_id : Uuid) (query : Queries)
      (urls : List PresignedFileUrl) : Type 0 where
    pub columns : ExtractFile
    pub extracts : IsExtract files columns
    pub singles : List PresignedFileUrl
    pub multis : List PresignedFileUrl
    pub joined : singles ++ multis ≡ urls
    pub small : map (λ u. u.upload_file) singles ≡ keep is_small files
    pub after : State H
    pub large :
        (unless_empty H columns.multipart_file.multipart_file_sha256s
          (create_multipart_presigned_file_url H lot_id query columns.multipart_file)
          after).0
        ≡ ok multis

  pub generate_s3_upload_url-Made :
      (files : List UploadFile) (lot_id : Uuid) (query : Queries) (s : State H)
      (urls : List PresignedFileUrl)
      → (generate_s3_upload_url H files lot_id query s).0 ≡ ok urls
      → Made files lot_id query urls
  unfolding generate_s3_upload_url
  generate_s3_upload_url-Made files lot_id query s urls e =
      let (d, extracts, e1) = >>=-eq-ok (extract_file_data H files) _ s urls e in
      let columns = extract_file_data-IsExtract H files s d extracts in
      let s1 = (extract_file_data H files s).1 in
      let first =
        unless_empty H d.single_file.single_part_file_sha256s
          (create_single_presigned_file_url H lot_id query d.single_file) in
      let (singles, es, e2) = >>=-eq-ok first _ s1 urls e1 in
      let second =
        unless_empty H d.multipart_file.multipart_file_sha256s
          (create_multipart_presigned_file_url H lot_id query d.multipart_file) in
      let (multis, em, e3) = >>=-eq-ok second _ (first s1).1 urls e2 in
      record {
        columns = d;
        extracts = columns;
        singles = singles;
        multis = multis;
        joined = ok-injective (singles ++ multis) urls e3;
        small = unless_empty-files (keep is_small files) lot_id query s1 singles (
            subst
              (λ c.
                (unless_empty H c.single_part_file_sha256s
                  (create_single_presigned_file_url H lot_id query c) s1).0
                ≡ ok singles)
              columns.single es);
        after = (first s1).1;
        large = em;
      }

  -- The urls are those of the answer to one multipart insert: it was asked for the files by their
  -- hashes, and there is one url for each row of the answer, with the attempt of the row, for the
  -- file of its hash.
  pub record IsFromInsert (fs : List UploadFile) (lot_id : Uuid) (query : Queries)
      (urls : List PresignedFileUrl) : Type 0 where
    pub arg : InsertAndValidateMultiPartUploadParams
    pub world : H.World
    pub found : ResultSet InsertAndValidateMultiPartUploadRow
    pub rows : List InsertAndValidateMultiPartUploadRow
    pub asked : arg.sha256s ≡ map (λ f. f.sha256) fs
    pub lot : arg.lot_id ≡ lot_id
    pub answered : (H.query_insert_multi query.db arg world).0 ≡ ok found
    pub collected : collect_rows found ≡ ok rows
    pub one_each : Perm (map url_tag urls) (map (answer_to (by_hash [] fs)) rows)
