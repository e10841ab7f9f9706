-- ===== src/ImageStore/Parts.antt =====
-- internal/imagestore/image_upload.go: the presigned urls of the parts of a multipart upload, and
-- which parts a resumed upload still lacks.
pub mod Laws
use be_auction_lot.Prelude.{
  String, Bool, true, false, ◌||◌, List, [], ◌∷◌, ◌++◌, if◌then◌else◌, some,
}
use be_auction_lot.Prelude.Int.{ℤ, int16_of_int, int32_of_int, eqb_ℤ}
use be_auction_lot.AppError.{GoError, app, internal_server_error, wrapped}
use be_auction_lot.Outcome
use be_auction_lot.Outcome.{Outcome, ok, deref}
use be_auction_lot.Action.{Action, ◌>>=◌, lift, return, or_fail, for_each}
use be_auction_lot.ImageStore.Types.{
  ImageEtag, MultiPresignedRequest, PresignedHttpRequest, UploadIdentity, S3Part, bucket_name,
}
use be_auction_lot.ImageStore.Host.{Host, Run, call, listed_parts, presigned_part}
use be_auction_lot.ImageStore.Failures.{internal_failure}

-- A set of part numbers: the keys of `uploadedPartsMap`.
unfoldable pub contains_part : ℤ → List ℤ → Bool
contains_part p [] = false
contains_part p (q ∷ qs) = eqb_ℤ q p || contains_part p qs

-- The loop over the parts that S3 lists.
unfoldable pub uploaded_parts : List S3Part → Outcome (List ImageEtag)
uploaded_parts [] = ok []
uploaded_parts (p ∷ ps) = Outcome.◌>>=◌ (deref p.etag) λ etag.
    Outcome.◌>>=◌ (deref p.part_number) λ number.
      Outcome.◌>>=◌ (uploaded_parts ps)
        λ rest. ok (record { etag = etag; part_number = number } ∷ rest)

-- The keys that the same loop puts into the map.
unfoldable pub uploaded_numbers : List ImageEtag → List ℤ
uploaded_numbers [] = []
uploaded_numbers (t ∷ ts) = int16_of_int t.part_number ∷ uploaded_numbers ts

-- The loop over all parts.
unfoldable pub missing_parts : List ℤ → List ℤ → List ℤ
unfolding contains_part
missing_parts uploaded [] = []
missing_parts uploaded (part ∷ parts) =
    let rest = missing_parts uploaded parts in
    if contains_part part uploaded then rest else part ∷ rest

module _ (H : Host) where
  -- `ListParts`
  unfoldable pub list_parts_of : UploadIdentity → Run H (List S3Part)
  unfolding call internal_server_error
  list_parts_of identity =
      or_fail
        (call H (listed_parts bucket_name identity.storage_key (some identity.upload_id))
          (H.list_parts bucket_name identity.storage_key (some identity.upload_id)))
        (λ e. app (
          internal_server_error "fileupload.listNotUploadedParts"
            (wrapped "s3Client list parts api failed:" e "") "cannot find uploaded parts"))

  unfoldable pub list_not_uploaded_parts : UploadIdentity → List ℤ → Run H (List ℤ × List ImageEtag)
  unfolding list_parts_of uploaded_parts uploaded_numbers missing_parts
  list_not_uploaded_parts identity all_parts = do
    parts ← list_parts_of identity
    etags ← lift (uploaded_parts parts)
    return (missing_parts (uploaded_numbers etags) all_parts, etags)

  -- The call of the presigning loops; `fail` is the error of the loop that it stands in.
  unfoldable pub presign_upload_part :
      (GoError → GoError) → UploadIdentity → ℤ → Run H PresignedHttpRequest
  unfolding call
  presign_upload_part fail identity part =
      or_fail
        (call H (presigned_part identity.storage_key (int32_of_int part) identity.upload_id) (
          H.presign_upload_part bucket_name identity.storage_key (int32_of_int part)
            identity.upload_id))
        fail

  -- One round of the presigning loops.
  unfoldable pub presign_part :
      (GoError → GoError) → UploadIdentity → ℤ → Run H MultiPresignedRequest
  unfolding presign_upload_part
  presign_part fail identity part = do
    url ← presign_upload_part fail identity part
    return (record { request = url; part = part })

  unfoldable pub generate_new_multi_part_upload_urls :
      UploadIdentity → List ℤ → Run H (List MultiPresignedRequest)
  unfolding presign_part internal_failure for_each
  generate_new_multi_part_upload_urls identity file_parts =
      for_each
        (presign_part
          (internal_failure "fileupload.generateNewMultiPartUploadUrls"
            "creating mulipart upload url failed: " "generation of multipart upload url failed")
          identity)
        file_parts

  unfoldable pub generate_existing_multi_part_presigned_url :
      UploadIdentity → List ℤ → Run H (List MultiPresignedRequest)
  unfolding presign_part internal_failure for_each
  generate_existing_multi_part_presigned_url identity non_uploaded_parts =
      for_each
        (presign_part
          (internal_failure "fileupload.generateExistingMultiPartPresignedUrl"
            "cannot create presigned url for resumable multipart upload:" "internal error")
          identity)
        non_uploaded_parts

  unfoldable pub generate_resume_upload_urls :
      UploadIdentity → List ℤ → Run H (List MultiPresignedRequest × List ImageEtag)
  unfolding list_not_uploaded_parts generate_existing_multi_part_presigned_url internal_failure
  generate_resume_upload_urls identity all_parts = do
    (non_uploaded_parts, uploaded_etags) ← or_fail (list_not_uploaded_parts identity all_parts) (
        internal_failure "fileupload.generateResumeUploadUrls"
          "listing of non-uploaded parts failed:" "internal error")
    resume_multi_parts ← generate_existing_multi_part_presigned_url identity non_uploaded_parts
    return (resume_multi_parts, uploaded_etags)
