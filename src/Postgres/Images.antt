-- ===== src/Postgres/Images.antt =====
-- internal/database/filestore/file_insert.sql.go: the insert of known images into lot_images.
use be_auction_lot.Prelude.{
  ◌+◌, String, ◌&&◌, Option, none, some, List, [], ◌∷◌, ◌++◌, str_eq, if◌then◌else◌,
}
use be_auction_lot.Prelude.Int.{pos}
use be_auction_lot.AppError.{GoError, pg_error}
use be_auction_lot.Outcome.{ok, err}
use be_auction_lot.Action.{Action, ◌>>=◌, ◌>>◌, lift, return, for_each}
use be_auction_lot.Filestore.{
  Uuid, InsertIdenticalImageBlobsToLotImagesParams, InsertIdenticalImageBlobsToLotImagesRow,
}
use be_auction_lot.Postgres.{ImageBlob, Work, Functions}
use be_auction_lot.Postgres.Upserts.{or_data_error, has_lot}

abbrev pub no_lot_for_image : GoError
no_lot_for_image = pg_error "lot_images_lot_id_fkey"

-- `join image_blobs on … where image_blobs.is_upload_completed`; the hash is unique.
unfoldable pub find_blob : String → List ImageBlob → Option ImageBlob
find_blob sha256 [] = none
find_blob sha256 (b ∷ bs) =
    let later = find_blob sha256 bs in
    if str_eq b.sha256 sha256 && b.is_upload_completed then some b else later

-- `unnest` of two arrays, as for the attempts.
unfoldable pub unnest_files : List String → List String → Option (List (String × String))
unnest_files [] [] = some []
unnest_files (h ∷ hs) (n ∷ ns) = elim (unnest_files hs ns) [
  | none ↦ none
  | some rest ↦ some ((h, n) ∷ rest)
]
unnest_files _ _ = none

-- The insert of one image, and its row with the hash of its blob.
unfoldable pub add_image :
    Uuid → String → ImageBlob → Action Work InsertIdenticalImageBlobsToLotImagesRow
add_image lot_id file_name b w =
    let id = pos (w.counters.image_ids + 1) in
    (
      ok (record {
        lot_image_id = id;
        file_name = file_name;
        image_blob_id = b.image_blob_id;
        sha256 = b.sha256;
      }),
      record w {
        tables = record w.tables {
          images =
              w.tables.images
              ++ (record {
                lot_image_id = id;
                lot_id = lot_id;
                image_blob_id = b.image_blob_id;
                file_name = file_name;
              }
                  ∷ []);
        };
        counters = record w.counters { image_ids = w.counters.image_ids + 1 };
      },
    )

-- A file joins with at most one blob.
unfoldable pub join_file :
    Uuid → String → Option ImageBlob → Action Work (List InsertIdenticalImageBlobsToLotImagesRow)
unfolding add_image
join_file lot_id file_name none = return []
join_file lot_id file_name (some b) = do r ← add_image lot_id file_name b; return (r ∷ [])

abbrev pub concat : {A : Type 0} → List (List A) → List A
concat [] = []
concat (xs ∷ xss) = xs ++ concat xss

unfoldable pub check_image_lot :
    Uuid → List InsertIdenticalImageBlobsToLotImagesRow → Action Work (Unit {0})
unfolding has_lot
check_image_lot lot_id [] w = (ok tt, w)
check_image_lot lot_id (_ ∷ _) w =
    if has_lot lot_id w.tables.lots then (ok tt, w) else (err no_lot_for_image, w)

module _ (f : Functions) where
  unfoldable pub insert_known :
      Uuid → String × String → Action Work (List InsertIdenticalImageBlobsToLotImagesRow)
  unfolding join_file find_blob
  insert_known lot_id (text, file_name) = do
    sha256 ← lift (or_data_error (f.canonical text))
    λ w. join_file lot_id file_name (find_blob sha256 w.tables.blobs) w

  -- The statement of `InsertIdenticalImageBlobsToLotImages`.
  unfoldable pub insert_known_images :
      InsertIdenticalImageBlobsToLotImagesParams
      → Action Work (List InsertIdenticalImageBlobsToLotImagesRow)
  unfolding unnest_files insert_known for_each check_image_lot
  insert_known_images arg = do
    files ← lift (or_data_error (unnest_files arg.sha256s arg.file_names))
    rows ← for_each (insert_known arg.lot_id) files
    check_image_lot arg.lot_id (concat rows)
    return (concat rows)
