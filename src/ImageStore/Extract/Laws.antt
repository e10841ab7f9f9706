-- ===== src/ImageStore/Extract/Laws.antt =====
-- What the columns of the two inserts hold after `extractFileData`.
use be_auction_lot.Prelude.{
  ◌<◌, String, Bool, true, false, not, List, [], ◌∷◌, ◌++◌, ltb, ◌≡◌, refl, ◌∙◌, ap, sym, arith,
  map, map-append, keep, keep-append, length, length-append, append-nil, append_assoc, Bool-cases,
  inl, inr, ◌↔◌, All, subst, ap₂,
}
use be_auction_lot.Prelude.Int.{pos, int32_of_uint, int32_of_uint_iff, two_31}
use be_auction_lot.Prelude.GoMap.{GoMap, insert}
use be_auction_lot.Outcome.{ok}
use be_auction_lot.Action.Ensures.{Ensures, Ensures-holds, Ensures->>=, Ensures-any, Ensures-return}
use be_auction_lot.Filestore.{Uuid}
use be_auction_lot.ImageStore.Types.{
  UploadFile, SingleFileData, MultipartFileData, ExtractFile, multipart_threshold,
}
use be_auction_lot.ImageStore.Host.{Host, State}
use be_auction_lot.ImageStore.Extract.{
  empty_extract, add_single, add_multipart, open_multipart, extract_one, extract_from,
  extract_file_data,
}

abbrev pub is_small : UploadFile → Bool
is_small f = ltb f.file_size multipart_threshold

abbrev pub is_large : UploadFile → Bool
is_large f = not (is_small f)

-- The columns for a list of small files.
abbrev pub single_columns : List UploadFile → SingleFileData
single_columns fs = record {
  single_file_uploads = fs;
  single_part_file_sha256s = map (λ f. f.sha256) fs;
  single_part_file_sizes = map (λ f. int32_of_uint f.file_size) fs;
  single_part_file_content_types = map (λ _. "image/jpeg") fs;
  single_part_file_names = map (λ f. f.file_name) fs;
}

-- The map from hashes to files that the loop builds, the later file winning.
unfoldable pub by_hash : GoMap UploadFile → List UploadFile → GoMap UploadFile
by_hash m [] = m
by_hash m (f ∷ fs) = by_hash (insert f.sha256 f m) fs

-- The columns for a list of large files; storage keys and upload ids are the host's, one for each.
pub record HasColumns (fs : List UploadFile) (d : MultipartFileData) : Type 0 where
  pub files : d.multi_file_upload_map ≡ by_hash [] fs
  pub sha256s : d.multipart_file_sha256s ≡ map (λ f. f.sha256) fs
  pub sizes : d.multipart_file_sizes ≡ map (λ f. int32_of_uint f.file_size) fs
  pub content_types : d.multipart_file_content_types ≡ map (λ _. "image/jpeg") fs
  pub names : d.multipart_file_names ≡ map (λ f. f.file_name) fs
  pub storage_keys : length d.multipart_file_storage_keys ≡ length fs
  pub upload_ids : length d.multipart_file_upload_ids ≡ length fs

-- The columns stand for the small and the large files of a list.
pub record IsExtract (fs : List UploadFile) (d : ExtractFile) : Type 0 where
  pub single : d.single_file ≡ single_columns (keep is_small fs)
  pub multipart : HasColumns (keep is_large fs) d.multipart_file

by_hash-append :
    (m : GoMap UploadFile) (fs : List UploadFile) (f : UploadFile)
    → by_hash m (fs ++ (f ∷ [])) ≡ insert f.sha256 f (by_hash m fs)
unfolding by_hash
by_hash-append m [] f = refl
by_hash-append m (g ∷ fs) f = by_hash-append (insert g.sha256 g m) fs f

add_single-columns :
    (f : UploadFile) (fs : List UploadFile)
    → add_single f (single_columns fs) ≡ single_columns (fs ++ (f ∷ []))
unfolding add_single
add_single-columns f fs = sym (simp map-append)

length_snoc {ℓ κ} :
    {A : Type ℓ} {B : Type κ} (xs : List A) (ys : List B) (x : A) (y : B)
    → length xs ≡ length ys
    → length (xs ++ (x ∷ [])) ≡ length (ys ++ (y ∷ []))
length_snoc xs ys x y h = omega (arith, length-append xs (x ∷ []), length-append ys (y ∷ []))

add_multipart-HasColumns :
    (f : UploadFile) (key : Uuid) (upload_id : String) (fs : List UploadFile)
    (d : MultipartFileData)
    → HasColumns fs d
    → HasColumns (fs ++ (f ∷ [])) (add_multipart f key upload_id d)
unfolding add_multipart
add_multipart-HasColumns f key upload_id fs d h = record {
  files = ap (insert f.sha256 f) h.files ∙ sym (by_hash-append [] fs f);
  sha256s = rw (h.sha256s) (sym (map-append _ fs (f ∷ [])));
  sizes = rw (h.sizes) (sym (map-append _ fs (f ∷ [])));
  content_types = rw (h.content_types) (sym (map-append _ fs (f ∷ [])));
  names = rw (h.names) (sym (map-append _ fs (f ∷ [])));
  storage_keys = length_snoc _ fs key f h.storage_keys;
  upload_ids = length_snoc _ fs upload_id f h.upload_ids;
}

keep_snoc_true :
    (p : UploadFile → Bool) (fs : List UploadFile) (f : UploadFile)
    → p f ≡ true
    → keep p (fs ++ (f ∷ [])) ≡ keep p fs ++ (f ∷ [])
unfolding keep
keep_snoc_true p fs f h = keep-append p fs (f ∷ []) ∙ rw h refl

keep_snoc_false :
    (p : UploadFile → Bool) (fs : List UploadFile) (f : UploadFile)
    → p f ≡ false
    → keep p (fs ++ (f ∷ [])) ≡ keep p fs
unfolding keep
keep_snoc_false p fs f h = keep-append p fs (f ∷ []) ∙ rw (h, append-nil) refl

add_single-IsExtract :
    (fs : List UploadFile) (acc : ExtractFile) (f : UploadFile)
    → is_small f ≡ true
    → IsExtract fs acc
    → IsExtract (fs ++ (f ∷ [])) (record acc { single_file = add_single f acc.single_file })
add_single-IsExtract fs acc f small h = record {
  single =
      ap (add_single f) h.single
      ∙ (add_single-columns f (keep is_small fs)
          ∙ ap single_columns (sym (keep_snoc_true is_small fs f small)));
  multipart =
      subst (λ l. HasColumns l acc.multipart_file)
        (sym (keep_snoc_false is_large fs f (ap not small))) h.multipart;
}

add_multipart-IsExtract :
    (fs : List UploadFile) (acc : ExtractFile) (f : UploadFile) (key : Uuid) (upload_id : String)
    → is_small f ≡ false
    → IsExtract fs acc
    → IsExtract
        (fs ++ (f ∷ []))
        (record acc { multipart_file = add_multipart f key upload_id acc.multipart_file })
add_multipart-IsExtract fs acc f key upload_id large h = record {
  single = h.single ∙ ap single_columns (sym (keep_snoc_false is_small fs f large));
  multipart =
      subst (λ l. HasColumns l (add_multipart f key upload_id acc.multipart_file))
        (sym (keep_snoc_true is_large fs f (ap not large)))
        (add_multipart-HasColumns f key upload_id (keep is_large fs) acc.multipart_file
          h.multipart);
}

module _ (H : Host) where
  extract_one-IsExtract :
      (fs : List UploadFile) (acc : ExtractFile) (f : UploadFile)
      → IsExtract fs acc
      → Ensures (IsExtract (fs ++ (f ∷ []))) (extract_one H acc f)
  unfolding extract_one
  extract_one-IsExtract fs acc f h = elim (Bool-cases (is_small f)) [
    | inl small ↦
        rw small
          (Ensures-return (IsExtract (fs ++ (f ∷ []))) _ (add_single-IsExtract fs acc f small h))
    | inr large ↦ rw large (
        Ensures->>= (λ _. Unit {0}) (IsExtract (fs ++ (f ∷ []))) (open_multipart H) _
          (Ensures-any (open_multipart H))
          λ opened _.
            Ensures-return (IsExtract (fs ++ (f ∷ []))) _
              (add_multipart-IsExtract fs acc f opened.0 opened.1 large h))
  ]

  extract_from-IsExtract :
      (done : List UploadFile) (acc : ExtractFile) (fs : List UploadFile)
      → IsExtract done acc
      → Ensures (IsExtract (done ++ fs)) (extract_from H acc fs)
  unfolding extract_from
  extract_from-IsExtract done acc [] h =
      rw (append-nil done) (Ensures-return (IsExtract done) acc h)
  extract_from-IsExtract done acc (f ∷ fs) h = rw (← append_assoc done (f ∷ []) fs) (
      Ensures->>= (IsExtract (done ++ (f ∷ []))) (IsExtract ((done ++ (f ∷ [])) ++ fs))
        (extract_one H acc f) _ (extract_one-IsExtract done acc f h)
        λ acc' h'. extract_from-IsExtract (done ++ (f ∷ [])) acc' fs h')

  -- If the extraction ends well, its columns stand for the files: those below 150 MB, in order, in
  -- the columns of the single insert, and all others in those of the multipart insert, with one
  -- storage key and one upload id for each.
  pub extract_file_data-IsExtract :
      (files : List UploadFile) (s : State H) (d : ExtractFile)
      → (extract_file_data H files s).0 ≡ ok d
      → IsExtract files d
  unfolding extract_file_data by_hash keep
  extract_file_data-IsExtract files s d e =
      Ensures-holds (IsExtract files) (extract_from H empty_extract files)
        (extract_from-IsExtract [] empty_extract files (record {
          single = refl;
          multipart = record {
            files = refl;
            sha256s = refl;
            sizes = refl;
            content_types = refl;
            names = refl;
            storage_keys = refl;
            upload_ids = refl;
          };
        }))
        s d e

-- The recorded sizes are the sizes exactly if each is below 2 GiB.
sizes_exact_iff :
    (fs : List UploadFile)
    → (map (λ f. int32_of_uint f.file_size) fs ≡ map (λ f. pos f.file_size) fs)
      ↔ All (λ f. f.file_size < two_31) fs
sizes_exact_iff [] = (λ _. tt, λ _. refl)
sizes_exact_iff (f ∷ fs) = (
  λ e. ((int32_of_uint_iff f.file_size).0 (cc), (sizes_exact_iff fs).0 (cc)),
  λ h. ap₂ ◌∷◌ ((int32_of_uint_iff f.file_size).1 h.0) ((sizes_exact_iff fs).1 h.1),
)

-- The file sizes that the multipart insert is given are the true sizes exactly if every large file
-- is smaller than 2 GiB; a larger one, which validation lets through up to 6 GiB, is recorded with
-- another size.
pub extract_file_data-sizes_iff :
    (H : Host) (files : List UploadFile) (s : State H) (d : ExtractFile)
    → (extract_file_data H files s).0 ≡ ok d
    → (d.multipart_file.multipart_file_sizes ≡ map (λ f. pos f.file_size) (keep is_large files))
      ↔ All (λ f. f.file_size < two_31) (keep is_large files)
extract_file_data-sizes_iff H files s d e =
    let columns = (extract_file_data-IsExtract H files s d e).multipart in
    let (to, from) = sizes_exact_iff (keep is_large files) in
    (λ exact. to (sym columns.sizes ∙ exact), λ small. columns.sizes ∙ from small)
