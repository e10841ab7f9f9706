-- ===== src/ImageStore/Wire.antt =====
-- internal/imagestore/image_store.go: the messages of LotImageService and their translation. A
-- field with presence is a pointer in Go, and an `Option` here.
pub mod Laws
use be_auction_lot.Prelude.{ℕ, String, ◌<>◌, Bool, true, Option, none, some, List, [], ◌∷◌, map}
use be_auction_lot.Prelude.Int.{ℤ, int32_of_int, int32_of_uint, uint32_of_int}
use be_auction_lot.Prelude.GoMap.{GoMap}
use be_auction_lot.AppError.{GoError, plain}
use be_auction_lot.Outcome.{Outcome, ok, err, deref, ◌>>=◌}
use be_auction_lot.Strconv.{itoa, atoi}
use be_auction_lot.ImageStore.Types.{
  UploadFile, ImageEtag, PresignedHttpRequest, MultiPresignedRequest, MultiPresignedUrl,
  PresignedFileUrl, CompletedPart,
}
use be_auction_lot.ImageStore.Failures.{internal_failure}

pub record ImageFile : Type 0 where
  pub sha256 : Option String
  pub file_name : Option String
  pub client_file_id : Option ℤ
  pub file_size : Option ℕ

pub record PartEtag : Type 0 where
  pub etag : Option String
  pub part : Option ℕ

pub record Request : Type 0 where
  pub url : Option String
  pub method : Option String
  pub signed_header : GoMap (List String)

pub record MultiPresignedHttpRequest : Type 0 where
  pub request : Request
  pub part : Option ℤ

-- The oneof `presigned_url`.
pub data PresignedUrl : Type 0 where
  single_url : Request → PresignedUrl
  multi_url :
      (multi_parts : List MultiPresignedHttpRequest) (part_size multipart_attempt_id : Option ℤ)
      (uploaded_etags : List PartEtag)
      → PresignedUrl

pub record PresignedFile : Type 0 where
  pub upload_file : ImageFile
  pub presigned_upload_url : PresignedUrl

pub record PresignFileResult : Type 0 where
  pub duplicate_files : List ImageFile
  pub already_uploaded_files : List ImageFile
  pub presigned_files : List PresignedFile

pub record GeneratePresignedUrlRequest : Type 0 where
  pub lot_images : List ImageFile
  pub lot_id : Option String

pub record GeneratePresignedUrlResponse : Type 0 where
  pub success : Option Bool
  pub message : Option String
  pub presign_result : PresignFileResult

pub record CompleteMultiPartUploadRequest : Type 0 where
  pub multipart_attempt_id : Option ℤ
  pub part_etags : List PartEtag

pub record CompleteMultiPartUploadResponse : Type 0 where
  pub success : Option Bool
  pub message : Option String

-- A loop that appends the result of each round and stops at the first failure.
unfoldable pub each_or_fail {ℓ κ} :
    {A : Type ℓ} {B : Type κ} → (A → Outcome B) → List A → Outcome (List B)
each_or_fail f [] = ok []
each_or_fail f (x ∷ xs) = do y ← f x; ys ← each_or_fail f xs; ok (y ∷ ys)

unfoldable pub convert_to_upload_file : ImageFile → Outcome UploadFile
unfolding itoa
convert_to_upload_file image_file = do
  sha256 ← deref image_file.sha256
  file_name ← deref image_file.file_name
  client_file_id ← deref image_file.client_file_id
  file_size ← deref image_file.file_size
  ok (record {
    sha256 = sha256;
    file_name = file_name;
    client_file_id = itoa client_file_id;
    file_size = file_size;
  })

unfoldable pub convert_to_upload_files : List ImageFile → Outcome (List UploadFile)
unfolding convert_to_upload_file each_or_fail
convert_to_upload_files = each_or_fail convert_to_upload_file

-- `strconv.Atoi` with its error.
abbrev pub client_id_or_fail : String → Option ℤ → Outcome ℤ
client_id_or_fail text none = err (
    internal_failure "imagestore.convertToImageFile"
      ("cannot convert client file id " <> (text <> " to integer:")) "internal error"
      (plain "strconv.Atoi"))
client_id_or_fail text (some z) = ok z

unfoldable pub convert_to_image_file : UploadFile → Outcome ImageFile
unfolding atoi internal_failure
convert_to_image_file file = do
  client_id ← client_id_or_fail file.client_file_id (atoi file.client_file_id)
  ok (record {
    sha256 = some file.sha256;
    file_name = some file.file_name;
    client_file_id = some (int32_of_int client_id);
    file_size = some file.file_size;
  })

unfoldable pub convert_to_image_files : List UploadFile → Outcome (List ImageFile)
unfolding convert_to_image_file each_or_fail
convert_to_image_files = each_or_fail convert_to_image_file

unfoldable pub convert_to_uploaded_etag : ImageEtag → PartEtag
unfolding uint32_of_int
convert_to_uploaded_etag tag = record {
  etag = some tag.etag;
  part = some (uint32_of_int tag.part_number);
}

unfoldable pub convert_to_uploaded_etags : List ImageEtag → List PartEtag
unfolding convert_to_uploaded_etag
convert_to_uploaded_etags = map convert_to_uploaded_etag

unfoldable pub convert_to_completed_part : PartEtag → Outcome CompletedPart
unfolding int32_of_uint
convert_to_completed_part etag_part = do
  part ← deref etag_part.part
  ok (record { etag = etag_part.etag; part_number = some (int32_of_uint part) })

unfoldable pub convert_to_completed_parts : List PartEtag → Outcome (List CompletedPart)
unfolding convert_to_completed_part each_or_fail
convert_to_completed_parts = each_or_fail convert_to_completed_part

-- `convertToLotImageSinglePresignedHttpRequest`; the header map is copied key by key
unfoldable pub convert_to_single_request : PresignedHttpRequest → Request
convert_to_single_request r = record {
  url = some r.url;
  method = some r.method;
  signed_header = r.signed_header;
}

-- `convertToLotImageMultiPresignedHttpRequest`
unfoldable pub convert_to_multi_request : MultiPresignedRequest → MultiPresignedHttpRequest
unfolding convert_to_single_request
convert_to_multi_request r = record {
  request = convert_to_single_request r.request;
  part = some (int32_of_int r.part);
}

-- `convertToLotImageMultiPartPresignedHttpRequest`
unfoldable pub convert_to_multi_requests : MultiPresignedUrl → List MultiPresignedHttpRequest
unfolding convert_to_multi_request
convert_to_multi_requests m = map convert_to_multi_request m.requests

-- The test `Single.request != nil` and the two literals.
unfoldable pub convert_to_presigned_url :
    Option PresignedHttpRequest → MultiPresignedUrl → PresignedUrl
unfolding convert_to_single_request convert_to_multi_requests convert_to_uploaded_etags
convert_to_presigned_url (some request) multi = single_url (convert_to_single_request request)
convert_to_presigned_url none multi =
    multi_url (convert_to_multi_requests multi) (some multi.part_size)
      (some multi.multipart_attempt_id) (convert_to_uploaded_etags multi.image_etags)

unfoldable pub convert_to_presigned_file : PresignedFileUrl → Outcome PresignedFile
unfolding convert_to_image_file convert_to_presigned_url
convert_to_presigned_file p = do
  image_file ← convert_to_image_file p.upload_file
  ok (record {
    upload_file = image_file;
    presigned_upload_url =
        convert_to_presigned_url p.presigned_upload_url.single.request p.presigned_upload_url.multi;
  })

unfoldable pub convert_to_presigned_image_files :
    List PresignedFileUrl → Outcome (List PresignedFile)
unfolding convert_to_presigned_file each_or_fail
convert_to_presigned_image_files = each_or_fail convert_to_presigned_file
