-- ===== src/ImageStore/Urls/Tags.antt =====
-- Which rows of the multipart insert the uploads come from that `segregateMultiUploadFiles` makes of
-- them, by the hash and the attempt.
use mathlib.Core.List.{Perm, perm_middle}
use mathlib.Core.List.Perm
use be_auction_lot.Prelude.{
  String, Bool, true, false, not, ◌&&◌, ◌||◌, List, [], ◌∷◌, ◌++◌, map, ◌≡◌, refl, ap, sym, subst,
  append_assoc, append-nil, append-snoc, ◌⊎◌, arith, inl, inr, if◌then◌else◌,
}
use be_auction_lot.Prelude.Int.{ℤ}
use be_auction_lot.Prelude.GoMap.{GoMap, get_or}
use be_auction_lot.Outcome
use be_auction_lot.Outcome.{Outcome, ok, err, panic, ok-injective}
use be_auction_lot.Filestore.{Uuid, InsertAndValidateMultiPartUploadRow}
use be_auction_lot.ImageStore.Types.{
  UploadFile, PresignedFileUrl, NewMultipartGenerationData, zero_upload_file,
}
use be_auction_lot.ImageStore.Batch.{Segregated, generation_data, segregate_row, segregate_from}

-- The file that the client named for a hash.
abbrev pub named : GoMap UploadFile → String → UploadFile
named files h = get_or zero_upload_file h files

-- What an upload and its url have of the row: the hash, or the file named for it, and the attempt.
abbrev pub tag : NewMultipartGenerationData → String × ℤ
tag u = (u.sha256, u.multipart_attempt_id)

abbrev pub row_tag : InsertAndValidateMultiPartUploadRow → String × ℤ
row_tag r = (r.sha256, r.image_blob_upload_attempt_id)

abbrev pub url_tag : PresignedFileUrl → UploadFile × ℤ
url_tag r = (r.upload_file, r.presigned_upload_url.multi.multipart_attempt_id)

abbrev pub named_tag : GoMap UploadFile → String × ℤ → UploadFile × ℤ
named_tag files t = (named files t.0, t.1)

abbrev pub answer_to : GoMap UploadFile → InsertAndValidateMultiPartUploadRow → UploadFile × ℤ
answer_to files r = (named files r.sha256, r.image_blob_upload_attempt_id)

abbrev pub tags_of : Segregated → List (String × ℤ)
tags_of acc = map tag (acc.0 ++ acc.1)

pub bind-ok :
    {A B : Type 0} (m : Outcome A) (f : A → Outcome B) (b : B)
    → Outcome.◌>>=◌ m f ≡ ok b
    → (a : A) × (m ≡ ok a) × (f a ≡ ok b)
bind-ok (ok a) f b e = (a, refl, e)
bind-ok (err x) f b e = cc
bind-ok panic f b e = cc

-- The upload of a row, and the list that it was put into.
abbrev Put : NewMultipartGenerationData → Segregated → Segregated → Type 0
Put u acc acc' = (acc' ≡ (acc.0 ++ (u ∷ []), acc.1)) ⊎ (acc' ≡ (acc.0, acc.1 ++ (u ∷ [])))

choose-Put :
    (fresh valid : Bool) (made : Outcome NewMultipartGenerationData) (acc acc' : Segregated)
    → (fresh ≡ false → valid ≡ true)
    → if◌then◌else◌ {A = Outcome Segregated} fresh
        (Outcome.◌>>=◌ made (λ u. ok (acc.0 ++ (u ∷ []), acc.1)))
        (if valid then Outcome.◌>>=◌ made (λ u. ok (acc.0, acc.1 ++ (u ∷ []))) else ok acc)
      ≡ ok acc'
    → (u : NewMultipartGenerationData) × (made ≡ ok u) × Put u acc acc'
choose-Put true valid made acc acc' h e =
    let (u, m, k) = bind-ok made _ acc' e in (u, m, inl (sym (ok-injective _ acc' k)))
choose-Put false true made acc acc' h e =
    let (u, m, k) = bind-ok made _ acc' e in (u, m, inr (sym (ok-injective _ acc' k)))
choose-Put false false made acc acc' h e = absurd (ground (arith, h refl))

Put-tags :
    (u : NewMultipartGenerationData) (acc acc' : Segregated)
    → Put u acc acc'
    → Perm (tags_of acc') (tag u ∷ tags_of acc)
Put-tags u (n, r) acc' (inl e) =
    rw (e, tags_of)
      (Perm.map tag
        (subst (λ l. Perm l (u ∷ (n ++ r))) (sym (append-snoc n u r)) (perm_middle n r)))
Put-tags u (n, r) acc' (inr e) =
    rw (e, tags_of)
      (Perm.map tag (
        subst (λ l. Perm (n ++ (r ++ (u ∷ []))) (u ∷ l)) (append-nil (n ++ r))
          (subst (λ l. Perm l (u ∷ ((n ++ r) ++ []))) (append_assoc n r (u ∷ []))
            (perm_middle (n ++ r) []))))

module _ (uuid_string : Uuid → String) where
  generation_data-tag :
      (row : InsertAndValidateMultiPartUploadRow) (u : NewMultipartGenerationData)
      → generation_data uuid_string row ≡ ok u
      → tag u ≡ row_tag row
  unfolding generation_data
  generation_data-tag row u e =
      let (upload_id, _, e₁) = bind-ok (Outcome.deref row.upload_id) _ u e in
      let (part_size, _, e₂) = bind-ok (Outcome.deref row.part_size) _ u e₁ in
      ap tag (sym (ok-injective _ u e₂))

  -- The row is put into one of the two lists.
  segregate_row-tag :
      (row : InsertAndValidateMultiPartUploadRow) (acc acc' : Segregated)
      → segregate_row uuid_string row acc ≡ ok acc'
      → Perm (tags_of acc') (row_tag row ∷ tags_of acc)
  unfolding segregate_row
  segregate_row-tag row (n, r) acc' e =
      let (u, made, put) =
        choose-Put (row.is_inserted || (not row.is_inserted && not row.is_valid)) row.is_valid
          (generation_data uuid_string row) (n, r) acc' (λ k. ground arith) e in
      subst (λ h. Perm (tags_of acc') (h ∷ tags_of (n, r))) (generation_data-tag row u made)
        (Put-tags u (n, r) acc' put)

  pub segregate_from-tags :
      (rows : List InsertAndValidateMultiPartUploadRow) (acc acc' : Segregated)
      → segregate_from uuid_string rows acc ≡ ok acc'
      → Perm (tags_of acc') (map row_tag rows ++ tags_of acc)
  unfolding segregate_from
  segregate_from-tags [] acc acc' e = rw (ok-injective acc acc' e) (Perm.refl (tags_of acc'))
  segregate_from-tags (row ∷ rows) acc acc' e =
      let (mid, first, rest) = bind-ok (segregate_row uuid_string row acc) _ acc' e in
      Perm.trans (segregate_from-tags rows mid acc' rest) (
        Perm.trans (Perm.append_left (map row_tag rows) (segregate_row-tag row acc mid first))
          (perm_middle (map row_tag rows) (tags_of acc)))
