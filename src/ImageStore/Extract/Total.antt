-- ===== src/ImageStore/Extract/Total.antt =====
-- When `extractFileData` ends well.
use be_auction_lot.Prelude.{String, List, [], ◌∷◌, ltb, some, ◌≡◌, refl, Bool-cases, inl, inr}
use be_auction_lot.Outcome.{ok}
use be_auction_lot.Filestore.{Uuid}
use be_auction_lot.ImageStore.Types.{UploadFile, ExtractFile, bucket_name, multipart_threshold}
use be_auction_lot.ImageStore.Host.{Host, State}
use be_auction_lot.ImageStore.Extract.{
  empty_extract, add_single, add_multipart, open_multipart, extract_one, extract_from,
  extract_file_data,
}

-- The source of randomness gives uuids, the text of which is parsed as the same uuid, and S3 opens
-- multipart uploads and names them.
pub record IsReady (H : Host) : Type 0 where
  pub draws :
      (w : H.World)
      → (u : Uuid) × ((H.new_random w).0 ≡ ok u) × (H.uuid_parse (H.uuid_string u) ≡ ok u)
  pub opens :
      (key : String) (w : H.World)
      → (id : String) × ((H.create_multipart_upload bucket_name key w).0 ≡ ok (some id))

module _ (H : Host) (ready : IsReady H) where
  open_multipart-ok :
      (s : State H) → (opened : Uuid × String) × ((open_multipart H s).0 ≡ ok opened)
  unfolding open_multipart
  open_multipart-ok s =
      let (u, drawn, parsed) = ready.draws s.world in
      let (id, created) = ready.opens (H.uuid_string u) (H.new_random s.world).1 in
      ((u, id), rw drawn (rw (parsed) (rw created refl)))

  extract_one-ok :
      (acc : ExtractFile) (file : UploadFile) (s : State H)
      → (d : ExtractFile) × ((extract_one H acc file s).0 ≡ ok d)
  unfolding extract_one
  extract_one-ok acc file s = elim (Bool-cases (ltb file.file_size multipart_threshold)) [
    | inl small ↦ (record acc { single_file = add_single file acc.single_file }, rw small refl)
    | inr large ↦
        let (opened, e) = open_multipart-ok s in
        (
          record acc { multipart_file = add_multipart file opened.0 opened.1 acc.multipart_file },
          rw large (rw e refl),
        )
  ]

  extract_from-ok :
      (acc : ExtractFile) (files : List UploadFile) (s : State H)
      → (d : ExtractFile) × ((extract_from H acc files s).0 ≡ ok d)
  unfolding extract_from
  extract_from-ok acc [] s = (acc, refl)
  extract_from-ok acc (file ∷ files) s =
      let (acc', e) = extract_one-ok acc file s in
      let (d, e') = extract_from-ok acc' files (extract_one H acc file s).1 in (d, rw e e')

  -- With a host that gives uuids, which are parsed back, and opens uploads, the extraction ends well, for any batch.
  pub extract_file_data_total :
      (files : List UploadFile) (s : State H)
      → (d : ExtractFile) × ((extract_file_data H files s).0 ≡ ok d)
  unfolding extract_file_data
  extract_file_data_total files s = extract_from-ok empty_extract files s
