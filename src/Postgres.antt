-- ===== src/Postgres.antt =====
-- internal/database/filestore/file_insert.sql.go and models.go: the SQL of the uploads, as functions
-- on the tables that internal/database/migrations make. Postgres itself is not read: what is modelled
-- is what the text of the statements says under its documented semantics, with these bounds. A
-- `bytea` is the hex text that `encode` gives for it, and `canonical` is `encode` after `decode`. The
-- casts to char(64) and varchar(250) change nothing within the lengths that the messages are
-- validated for. Rows are handled and returned in the order of the arrays. A part count fits an int2.
pub mod Attempts
pub mod Upserts
pub mod Index
pub mod Abstract
pub mod Refinement
pub mod Statements
pub mod Contract
pub mod Images
pub mod Session
pub mod Atomic
pub mod Invariant
pub mod PartCount
pub mod Resume
pub mod Mixed
pub mod Answers
pub mod Lots
use be_auction_lot.Prelude.{ℕ, String, Bool, Option, List}
use be_auction_lot.Prelude.Int.{ℤ}
use be_auction_lot.Filestore.{Uuid, UploadType}

-- `UploadAttemptState`
pub data AttemptState : Type 0 where
  pending committed : AttemptState

pub record ImageBlobUploadAttempt : Type 0 where
  pub image_blob_upload_attempt_id : ℤ
  pub sha256 : String
  pub file_size : ℤ
  pub content_type : String
  pub upload_type : UploadType
  pub upload_id : Option String
  pub part_size : Option ℤ
  pub lot_id : Uuid
  pub file_name : Option String
  pub storage_key : Uuid
  pub username : String
  pub upload_state : AttemptState
  pub version : ℕ
  pub valid_until : Option ℕ
  pub verified : Option Bool

pub record ImageBlob : Type 0 where
  pub image_blob_id : ℤ
  pub sha256 : String
  pub content_type : String
  pub s3_key : String
  pub is_upload_completed : Bool

pub record LotImage : Type 0 where
  pub lot_image_id : ℤ
  pub lot_id : Uuid
  pub image_blob_id : ℤ
  pub file_name : String

pub record Lot : Type 0 where
  pub id : Uuid
  pub title : String
  pub description : String
  pub category : Option String
  pub bid_opening_price : Option ℤ

pub record Tables : Type 0 where
  pub attempts : List ImageBlobUploadAttempt
  pub blobs : List ImageBlob
  pub images : List LotImage
  pub lots : List Lot

-- What does not go back with a transaction: how much of each sequence and of the random uuids is
-- used, and the time.
pub record Counters : Type 0 where
  pub attempt_ids : ℕ
  pub image_ids : ℕ
  pub uuids : ℕ
  pub now : ℕ

-- One statement at work: the tables so far, the counters, and the hashes of the rows that it has
-- written.
pub record Work : Type 0 where
  pub tables : Tables
  pub counters : Counters
  pub touched : List String

-- `decode(_, 'hex')` and then `encode(_, 'hex')`, and `gen_random_uuid()`.
pub record Functions : Type 0 where
  pub canonical : String → Option String
  pub random_uuid : ℕ → Uuid
