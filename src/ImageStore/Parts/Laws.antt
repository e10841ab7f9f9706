-- ===== src/ImageStore/Parts/Laws.antt =====
-- The parts that the urls of new and of resumed uploads are for.
use be_auction_lot.Prelude.{
  Bool, false, ◌||◌, List, [], ◌∷◌, ◌≡◌, refl, ◌∙◌, map, arith, All, subst,
}
use mathlib.Core.List.{map-id}
use be_auction_lot.Prelude.Int.{
  ℤ, pos, negsuc, IsInt16, IsInt32, int32_of_int, int32_of_int_id, eqb_ℤ,
}
use be_auction_lot.Outcome.{ok}
use be_auction_lot.Action.{for_each}
use be_auction_lot.Action.Ensures.{
  Ensures, Ensures-holds, Ensures->>=, Ensures-any, Ensures-return, Ensures-lift, Ensures-or_fail,
  Ensures-for_each, Each, Each-map,
}
use be_auction_lot.AppError.{GoError}
use be_auction_lot.ImageStore.Types.{
  ImageEtag, MultiPresignedRequest, PresignedHttpRequest, UploadIdentity, bucket_name,
}
use be_auction_lot.ImageStore.Host.{Host, State, Run, call, presigned_part}
use be_auction_lot.ImageStore.Parts.{
  presign_upload_part, presign_part, generate_new_multi_part_upload_urls,
}

-- An etag for the part is among those uploaded.
abbrev pub is_uploaded : List ImageEtag → ℤ → Bool
is_uploaded [] part = false
is_uploaded (t ∷ ts) part = eqb_ℤ t.part_number part || is_uploaded ts part

-- S3 numbers parts from 1 to 10000, which int16 holds.
abbrev pub HasSmallNumber : ImageEtag → Type 0
HasSmallNumber t = IsInt16 t.part_number

IsInt16-IsInt32 : (z : ℤ) → IsInt16 z → IsInt32 z
IsInt16-IsInt32 (pos n) h = omega arith
IsInt16-IsInt32 (negsuc n) h = omega arith

module _ (H : Host) where
  presign_part-part :
      (fail : GoError → GoError) (identity : UploadIdentity) (part : ℤ)
      → Ensures (λ r. r.part ≡ part) (presign_part H fail identity part)
  unfolding presign_part
  presign_part-part fail identity part =
      let url_of = presign_upload_part H fail identity part in
      Ensures->>= (λ _. Unit {0}) (λ r. r.part ≡ part) url_of _ (Ensures-any url_of)
        λ url _. Ensures-return (λ r. r.part ≡ part) (record { request = url; part = part }) refl

  pub presigned_parts :
      (fail : GoError → GoError) (identity : UploadIdentity) (parts : List ℤ) (s : State H)
      (requests : List MultiPresignedRequest)
      → (for_each (presign_part H fail identity) parts s).0 ≡ ok requests
      → map (λ r. r.part) requests ≡ parts
  presigned_parts fail identity parts s requests e =
      Each-map (λ r. r.part) (λ p. p) parts requests
        (Ensures-holds (Each (λ p r. r.part ≡ p) parts)
          (for_each (presign_part H fail identity) parts)
          (Ensures-for_each (λ p r. r.part ≡ p) (presign_part H fail identity)
            (presign_part-part fail identity) parts)
          s requests e)
      ∙ map-id parts

  -- The url was signed for the number of a part of the upload.
  abbrev pub WasSignedFor : UploadIdentity → ℤ → PresignedHttpRequest → Type 0
  WasSignedFor identity number url =
      (w : H.World) × ((H.presign_upload_part bucket_name identity.storage_key number
          identity.upload_id w).0
        ≡ ok url)

  -- The request stands for a part, and its url was signed for that part.
  abbrev pub IsFor : UploadIdentity → ℤ → MultiPresignedRequest → Type 0
  IsFor identity part r = (r.part ≡ part) × WasSignedFor identity part r.request

  presign_upload_part-signed :
      (fail : GoError → GoError) (identity : UploadIdentity) (part : ℤ)
      → Ensures
          (WasSignedFor identity (int32_of_int part))
          (presign_upload_part H fail identity part)
  unfolding presign_upload_part call
  presign_upload_part-signed fail identity part =
      let P = WasSignedFor identity (int32_of_int part) in
      let sign : Run H PresignedHttpRequest =
        call H (presigned_part identity.storage_key (int32_of_int part) identity.upload_id) (
          H.presign_upload_part bucket_name identity.storage_key (int32_of_int part)
            identity.upload_id) in
      Ensures-or_fail P sign fail (λ s. Ensures-lift P (sign s).0 (λ url e. (s.world, e)) s)

  presign_part-signed :
      (fail : GoError → GoError) (identity : UploadIdentity) (part : ℤ)
      → Ensures
          (λ r. (r.part ≡ part) × WasSignedFor identity (int32_of_int part) r.request)
          (presign_part H fail identity part)
  unfolding presign_part
  presign_part-signed fail identity part =
      Ensures->>= (WasSignedFor identity (int32_of_int part)) _
        (presign_upload_part H fail identity part) _ (presign_upload_part-signed fail identity part)
        λ url signed.
          Ensures-return
            (λ r. (r.part ≡ part) × WasSignedFor identity (int32_of_int part) r.request)
            (record { request = url; part = part }) (refl, signed)

  -- The conversion to int32 changes no int16.
  Each-IsFor :
      (identity : UploadIdentity) (parts : List ℤ) (requests : List MultiPresignedRequest)
      → All IsInt16 parts
      → Each (λ p r. (r.part ≡ p) × WasSignedFor identity (int32_of_int p) r.request) parts requests
      → Each (IsFor identity) parts requests
  Each-IsFor identity [] [] small h = tt
  Each-IsFor identity [] (r ∷ rs) small h = absurd h
  Each-IsFor identity (p ∷ ps) [] small h = absurd h
  Each-IsFor identity (p ∷ ps) (r ∷ rs) (fits, small) ((same, signed), h) = (
    (
      same,
      subst (λ n. WasSignedFor identity n r.request) (int32_of_int_id p (IsInt16-IsInt32 p fits))
          signed,
    ),
    Each-IsFor identity ps rs small h,
  )

  -- A new upload that ends well has one request for each of its parts, in order, labelled with the
  -- number of the part and with an url that the presigner gave for that number, the storage key and
  -- the upload id, if the numbers are in the range of int16.
  pub generate_new_multi_part_upload_urls-parts :
      (identity : UploadIdentity) (parts : List ℤ) (s : State H)
      (requests : List MultiPresignedRequest)
      → All IsInt16 parts
      → (generate_new_multi_part_upload_urls H identity parts s).0 ≡ ok requests
      → Each (IsFor identity) parts requests
  unfolding generate_new_multi_part_upload_urls
  generate_new_multi_part_upload_urls-parts identity parts s requests small e =
      Each-IsFor identity parts requests small (
        Ensures-holds _ (for_each (presign_part H _ identity) parts)
          (Ensures-for_each _ (presign_part H _ identity) (presign_part-signed _ identity) parts) s
          requests e)
