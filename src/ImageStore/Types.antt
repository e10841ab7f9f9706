-- ===== src/ImageStore/Types.antt =====
-- The types of internal/imagestore/image_upload.go, and those of the AWS SDK that it reads.
use be_auction_lot.Prelude.{ℕ, String, Option, none, List, [], ◌*◌}
use be_auction_lot.Prelude.Int.{ℤ, pos}
use be_auction_lot.Prelude.GoMap.{GoMap}
use be_auction_lot.Filestore.{Uuid}

abbrev pub multipart_threshold : ℕ
multipart_threshold = 150 * 1024 * 1024

abbrev pub part_size : ℕ
part_size = 10 * 1024 * 1024

-- `bucketName` of image_store.go, the bucket of the only `s3Storage` that is made.
abbrev pub bucket_name : String
bucket_name = "arn:aws:s3:ap-south-1:433154991296:accesspoint/auction-lot-service-access-point"

-- `FileSize` is a `uint` of 64 bits.
pub record UploadFile : Type 0 where
  pub sha256 : String
  pub file_name : String
  pub client_file_id : String
  pub file_size : ℕ

-- The zero value, which a missing key of a map gives.
abbrev pub zero_upload_file : UploadFile
zero_upload_file = record { sha256 = ""; file_name = ""; client_file_id = ""; file_size = 0 }

pub record ImageEtag : Type 0 where
  pub etag : String
  pub part_number : ℤ

-- `v4.PresignedHTTPRequest`
pub record PresignedHttpRequest : Type 0 where
  pub url : String
  pub method : String
  pub signed_header : GoMap (List String)

pub record MultiPresignedRequest : Type 0 where
  pub request : PresignedHttpRequest
  pub part : ℤ

pub record MultiPresignedUrl : Type 0 where
  pub requests : List MultiPresignedRequest
  pub multipart_attempt_id : ℤ
  pub part_size : ℤ
  pub image_etags : List ImageEtag

pub record SinglePresignedUrl : Type 0 where
  pub request : Option PresignedHttpRequest

pub record PresignedUploadUrl : Type 0 where
  pub single : SinglePresignedUrl
  pub multi : MultiPresignedUrl

abbrev pub zero_multi : MultiPresignedUrl
zero_multi = record {
  requests = [];
  multipart_attempt_id = pos 0;
  part_size = pos 0;
  image_etags = [];
}

abbrev pub zero_single : SinglePresignedUrl
zero_single = record { request = none }

pub record PresignedFileUrl : Type 0 where
  pub upload_file : UploadFile
  pub presigned_upload_url : PresignedUploadUrl

pub record SingleFileData : Type 0 where
  pub single_file_uploads : List UploadFile
  pub single_part_file_sha256s : List String
  pub single_part_file_sizes : List ℤ
  pub single_part_file_content_types : List String
  pub single_part_file_names : List String

pub record MultipartFileData : Type 0 where
  pub multi_file_upload_map : GoMap UploadFile
  pub multipart_file_sha256s : List String
  pub multipart_file_sizes : List ℤ
  pub multipart_file_content_types : List String
  pub multipart_file_names : List String
  pub multipart_file_storage_keys : List Uuid
  pub multipart_file_upload_ids : List String

pub record ExtractFile : Type 0 where
  pub single_file : SingleFileData
  pub multipart_file : MultipartFileData

pub record NewMultipartGenerationData : Type 0 where
  pub object_key : String
  pub file_parts : List ℤ
  pub upload_id : String
  pub storage_key : String
  pub sha256 : String
  pub part_size : ℤ
  pub multipart_attempt_id : ℤ

pub record UploadIdentity : Type 0 where
  pub storage_key : String
  pub upload_id : String

pub record UploadFileRequestResult : Type 0 where
  pub duplicate_files : List UploadFile
  pub already_uploaded_files : List UploadFile
  pub presigned_file_urls : List PresignedFileUrl

-- `types.Part` of S3, as `ListParts` returns it, and `types.CompletedPart`.
pub record S3Part : Type 0 where
  pub etag : Option String
  pub part_number : Option ℤ

pub record CompletedPart : Type 0 where
  pub etag : Option String
  pub part_number : Option ℤ
