-- ===== src/ImageStore/Host.antt =====
-- What internal/imagestore calls and does not implement: S3 and its presigner, package uuid,
-- Postgres behind the generated queries, the order in which Go ranges over a map, and the sort of
-- package slices. Each call that leaves the process runs on the state and is written to a log.
use be_auction_lot.Prelude.{String, Option, List, [], ◌∷◌, ◌++◌}
use be_auction_lot.Prelude.Int.{ℤ}
use be_auction_lot.Prelude.GoMap.{GoMap}
use be_auction_lot.Outcome
use be_auction_lot.Outcome.{Outcome}
use be_auction_lot.Action.{Action}
use be_auction_lot.Filestore.{
  Uuid, Dbtx, GetMultiPartUploadItemRow, InsertAndValidateMultiPartUploadParams,
  InsertAndValidateMultiPartUploadRow, InsertIdenticalImageBlobsToLotImagesParams,
  InsertIdenticalImageBlobsToLotImagesRow, InsertSinglePartUploadParams, InsertSinglePartUploadRow,
}
use be_auction_lot.Filestore.Rows.{ResultSet, collect_rows}
use be_auction_lot.ImageStore.Types.{UploadFile, PresignedHttpRequest, S3Part, CompletedPart}

-- The world is Postgres, S3 and the source of randomness together.
pub record Host : Type 1 where
  pub World : Type 0
  pub begin : World → Outcome (Unit {0}) × World
  pub commit : World → Outcome (Unit {0}) × World
  pub rollback : World → Outcome (Unit {0}) × World
  pub query_insert_identical :
      Dbtx
      → InsertIdenticalImageBlobsToLotImagesParams
      → World
      → Outcome (ResultSet InsertIdenticalImageBlobsToLotImagesRow) × World
  pub query_insert_single :
      Dbtx
      → InsertSinglePartUploadParams
      → World
      → Outcome (ResultSet InsertSinglePartUploadRow) × World
  pub query_insert_multi :
      Dbtx
      → InsertAndValidateMultiPartUploadParams
      → World
      → Outcome (ResultSet InsertAndValidateMultiPartUploadRow) × World
  -- `QueryRow` and the `Scan` of its row
  pub query_row_item : Dbtx → ℤ → World → Outcome GetMultiPartUploadItemRow × World
  -- bucket and key; the upload id that S3 gives is a pointer
  pub create_multipart_upload : String → String → World → Outcome (Option String) × World
  -- bucket, key and upload id
  pub list_parts : String → String → Option String → World → Outcome (List S3Part) × World
  pub complete_multipart_upload :
      String → String → Option String → List CompletedPart → World → Outcome (Unit {0}) × World
  -- bucket, key and checksum
  pub presign_put_object : String → String → String → World → Outcome PresignedHttpRequest × World
  -- bucket, key, part number and upload id
  pub presign_upload_part :
      String → String → ℤ → String → World → Outcome PresignedHttpRequest × World
  pub new_random : World → Outcome Uuid × World
  pub uuid_string : Uuid → String
  pub uuid_parse : String → Outcome Uuid
  pub range_files : World → GoMap UploadFile → List (String × UploadFile)
  -- `slices.SortFunc`, which panics if the comparison does
  pub sort_func :
      (CompletedPart → CompletedPart → Outcome ℤ)
      → List CompletedPart
      → Outcome (List CompletedPart)

pub data Call : Type 0 where
  begun committed rolled_back : Call
  inserted_identical : Dbtx → InsertIdenticalImageBlobsToLotImagesParams → Call
  inserted_single : Dbtx → InsertSinglePartUploadParams → Call
  inserted_multi : Dbtx → InsertAndValidateMultiPartUploadParams → Call
  read_item : Dbtx → ℤ → Call
  created_multipart : String → Call
  listed_parts : String → String → Option String → Call
  completed_multipart : String → String → Option String → List CompletedPart → Call
  presigned_put : String → String → Call
  presigned_part : String → ℤ → String → Call
  drew_random : Call

pub record State (H : Host) : Type 0 where
  pub world : H.World
  pub log : List Call

module _ (H : Host) where
  abbrev pub Run : Type 0 → Type 0
  Run A = Action (State H) A

  -- One call of the host, and its line in the log.
  unfoldable pub call : {A : Type 0} → Call → (H.World → Outcome A × H.World) → Run A
  call c f s = let (r, w) = f s.world in (r, record { world = w; log = s.log ++ (c ∷ []) })

  -- A query and the loop that collects its rows.
  unfoldable pub call_rows :
      {A : Type 0} → Call → (H.World → Outcome (ResultSet A) × H.World) → Run (List A)
  unfolding call collect_rows
  call_rows c f s = let (r, s') = call c f s in (Outcome.◌>>=◌ r collect_rows, s')
