-- ===== src/ImageStore/Wire/Laws.antt =====
-- The translation between messages and the types of the store.
use be_auction_lot.Prelude.{
  ℕ, String, Option, none, some, List, [], ◌∷◌, ◌≡◌, refl, sym, ◌≢◌, All, ◌⊎◌, inl, inr, arith, map,
  subst,
}
use be_auction_lot.Prelude.Int.{
  ℤ, pos, negsuc, int32_of_int_id, int32_of_uint-uint32_of_int, IsInt32,
}
use be_auction_lot.Outcome.{Outcome, ok, err, panic, ◌>>=◌}
use mathlib.Core.Option.{some-injective}
use be_auction_lot.Strconv.{itoa}
use be_auction_lot.Strconv.RoundTrip.{IsInt, atoi-itoa}
use be_auction_lot.ImageStore.Types.{UploadFile, ImageEtag, CompletedPart}
use be_auction_lot.ImageStore.Wire.{
  ImageFile, each_or_fail, convert_to_upload_file, convert_to_upload_files, convert_to_image_file,
  convert_to_image_files, convert_to_uploaded_etag, convert_to_uploaded_etags,
  convert_to_completed_part, convert_to_completed_parts,
}

-- A message with every field set, and a client id in the range of its int32 field.
abbrev pub IsComplete : ImageFile → Type 0
IsComplete f =
    (f.sha256 ≢ none)
    × (f.file_name ≢ none)
    × (f.file_size ≢ none)
    × ((id : ℤ) × (f.client_file_id ≡ some id) × IsInt32 id)

IsInt32-IsInt : (z : ℤ) → IsInt32 z → IsInt z
IsInt32-IsInt (pos n) h = omega arith
IsInt32-IsInt (negsuc n) h = omega arith

convert_to_image_file-itoa :
    (sha256 file_name : String) (id : ℤ) (file_size : ℕ)
    → IsInt32 id
    → convert_to_image_file (record {
      sha256 = sha256;
      file_name = file_name;
      client_file_id = itoa id;
      file_size = file_size;
    })
      ≡ ok (record {
        sha256 = some sha256;
        file_name = some file_name;
        client_file_id = some id;
        file_size = some file_size;
      })
unfolding convert_to_image_file
convert_to_image_file-itoa sha256 file_name id file_size h =
    rw (atoi-itoa id (IsInt32-IsInt id h)) (rw (int32_of_int_id id h) refl)

converted_back :
    (sha256 file_name : Option String) (client_file_id : Option ℤ) (file_size : Option ℕ)
    → let f : ImageFile = record {
      sha256 = sha256;
      file_name = file_name;
      client_file_id = client_file_id;
      file_size = file_size;
    } in
      IsComplete f → (convert_to_upload_file f >>= convert_to_image_file) ≡ ok f
unfolding convert_to_upload_file
converted_back none n c z (h, _, _, _) = absurd (h refl)
converted_back (some s) none c z (_, h, _, _) = absurd (h refl)
converted_back (some s) (some n) none z (_, _, _, (id, e, h)) = cc
converted_back (some s) (some n) (some c) none (_, _, h, _) = absurd (h refl)
converted_back (some s) (some n) (some c) (some z) (_, _, _, (id, e, h)) =
    convert_to_image_file-itoa s n c z (subst IsInt32 (sym (some-injective c id e)) h)

each_back :
    (f : ImageFile) (fs : List ImageFile) (m : Outcome UploadFile) (ms : Outcome (List UploadFile))
    → (m >>= convert_to_image_file) ≡ ok f
    → (ms >>= convert_to_image_files) ≡ ok fs
    → ((m >>= λ y. ms >>= λ ys. ok (y ∷ ys)) >>= convert_to_image_files) ≡ ok (f ∷ fs)
unfolding convert_to_image_files each_or_fail
each_back f fs (ok u) (ok us) one rest = rw one (rw rest refl)
each_back f fs (ok u) (err e) one rest = cc
each_back f fs (ok u) panic one rest = cc
each_back f fs (err e) ms one rest = cc
each_back f fs panic ms one rest = cc

-- A batch of complete messages comes back unchanged: the client id goes through decimal text and
-- the others through plain copies.
pub convert_to_image_files-convert_to_upload_files :
    (fs : List ImageFile)
    → All IsComplete fs
    → (convert_to_upload_files fs >>= convert_to_image_files) ≡ ok fs
unfolding convert_to_upload_files convert_to_image_files each_or_fail
convert_to_image_files-convert_to_upload_files [] h = refl
convert_to_image_files-convert_to_upload_files (f ∷ fs) (h, hs) =
    each_back f fs (convert_to_upload_file f) (convert_to_upload_files fs)
      (converted_back f.sha256 f.file_name f.client_file_id f.file_size h)
      (convert_to_image_files-convert_to_upload_files fs hs)

-- Every field that the conversion reads through a pointer is set.
abbrev pub HasFields : ImageFile → Type 0
HasFields f =
    (f.sha256 ≢ none) × (f.file_name ≢ none) × (f.client_file_id ≢ none) × (f.file_size ≢ none)

convert_field_cases :
    (sha256 file_name : Option String) (client_file_id : Option ℤ) (file_size : Option ℕ)
    → let f : ImageFile = record {
      sha256 = sha256;
      file_name = file_name;
      client_file_id = client_file_id;
      file_size = file_size;
    } in
      (HasFields f × ((u : UploadFile) × (convert_to_upload_file f ≡ ok u)))
      ⊎ ((HasFields f → ⊥) × (convert_to_upload_file f ≡ panic))
unfolding convert_to_upload_file
convert_field_cases none n c z = inr ((λ h. h.0 refl), refl)
convert_field_cases (some s) none c z = inr ((λ h. h.1 refl), refl)
convert_field_cases (some s) (some n) none z = inr ((λ h. h.2 refl), refl)
convert_field_cases (some s) (some n) (some c) none = inr ((λ h. h.3 refl), refl)
convert_field_cases (some s) (some n) (some c) (some z) =
    inl (((λ e. cc), (λ e. cc), (λ e. cc), (λ e. cc)), (_, refl))

-- The batch of a request is converted if every message has its four fields, and panics otherwise:
-- there is no third way.
pub convert_to_upload_files_cases :
    (fs : List ImageFile)
    → (All HasFields fs × ((us : List UploadFile) × (convert_to_upload_files fs ≡ ok us)))
      ⊎ ((All HasFields fs → ⊥) × (convert_to_upload_files fs ≡ panic))
unfolding convert_to_upload_files each_or_fail
convert_to_upload_files_cases [] = inl (tt, ([], refl))
convert_to_upload_files_cases (f ∷ fs) =
    elim (convert_field_cases f.sha256 f.file_name f.client_file_id f.file_size) [
      | inl (here, (u, e)) ↦ elim (convert_to_upload_files_cases fs) [
        | inl (there, (us, e')) ↦ inl ((here, there), (u ∷ us, rw e (rw e' refl)))
        | inr (lacks, e') ↦ inr ((λ h. lacks h.1), rw e (rw e' refl))
      ]
      | inr (lacks, e) ↦ inr ((λ h. lacks h.0), rw e refl)
    ]

-- An etag as the client returns it.
abbrev pub completed_of : ImageEtag → CompletedPart
completed_of t = record { etag = some t.etag; part_number = some t.part_number }

-- The etags that a resumed upload reports are read back as the same etags and part numbers.
pub convert_to_completed_parts-convert_to_uploaded_etags :
    (tags : List ImageEtag)
    → All (λ t. IsInt32 t.part_number) tags
    → convert_to_completed_parts (convert_to_uploaded_etags tags) ≡ ok (map completed_of tags)
unfolding convert_to_completed_parts convert_to_completed_part convert_to_uploaded_etags
    convert_to_uploaded_etag each_or_fail
convert_to_completed_parts-convert_to_uploaded_etags [] h = refl
convert_to_completed_parts-convert_to_uploaded_etags (t ∷ ts) (h, hs) =
    rw (convert_to_completed_parts-convert_to_uploaded_etags ts hs)
      (rw (int32_of_uint-uint32_of_int t.part_number h) refl)
