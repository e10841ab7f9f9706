-- ===== src/Filestore.antt =====
-- internal/database/filestore: the rows and parameters of the queries that sqlc generated, the loop
-- that collects the rows of a query, and `Queries` over a connection or a transaction.
pub mod Rows
pub mod Enums
use be_auction_lot.Prelude.{ℕ, ◌==◌, String, Bool, Option, List}
use be_auction_lot.Prelude.Int.{ℤ}

-- `uuid.UUID`, a [16]byte: the number that its bytes spell.
pub data Uuid : Type 0 where
  uuid : ℕ → Uuid

abbrev pub uuid_eqb : Uuid → Uuid → Bool
uuid_eqb (uuid a) (uuid b) = a == b

pub data UploadType : Type 0 where
  multi_upload single_upload : UploadType

pub record GetMultiPartUploadItemRow : Type 0 where
  pub upload_id : Option String
  pub storage_key : Uuid
  pub part_count : Option ℤ

pub record InsertAndValidateMultiPartUploadParams : Type 0 where
  pub upload_type : UploadType
  pub part_size : ℤ
  pub lot_id : Uuid
  pub username : String
  pub sha256s : List String
  pub file_sizes : List ℤ
  pub content_types : List String
  pub upload_ids : List String
  pub file_names : List String
  pub storage_keys : List Uuid

pub record InsertAndValidateMultiPartUploadRow : Type 0 where
  pub part_size : Option ℤ
  pub image_blob_upload_attempt_id : ℤ
  pub sha256 : String
  pub storage_key : Uuid
  pub upload_id : Option String
  pub parts : List ℤ
  pub is_inserted : Bool
  pub is_valid : Bool

pub record InsertIdenticalImageBlobsToLotImagesParams : Type 0 where
  pub lot_id : Uuid
  pub sha256s : List String
  pub file_names : List String

pub record InsertIdenticalImageBlobsToLotImagesRow : Type 0 where
  pub lot_image_id : ℤ
  pub file_name : String
  pub image_blob_id : ℤ
  pub sha256 : String

pub record InsertSinglePartUploadParams : Type 0 where
  pub upload_type : UploadType
  pub lot_id : Uuid
  pub username : String
  pub sha256s : List String
  pub file_sizes : List ℤ
  pub content_types : List String
  pub files_names : List String

pub record InsertSinglePartUploadRow : Type 0 where
  pub sha256 : String
  pub storage_key : Uuid
  pub is_inserted : Bool

-- `DBTX`: the connection, or the transaction that `WithTx` puts in its place.
pub data Dbtx : Type 0 where
  conn tx : Dbtx

-- `Queries` holds its DBTX and nothing else.
pub record Queries : Type 0 where
  pub db : Dbtx

unfoldable pub new : Dbtx → Queries
new db = record { db = db }

unfoldable pub with_tx : Queries → Dbtx → Queries
with_tx q t = record { db = t }
