-- ===== src/ImageStore/Urls/Serves.antt =====
-- A host that answers every call that the urls of a batch need.
use be_auction_lot.Prelude.{
  String, Bool, true, false, Option, none, some, List, [], ◌∷◌, map, All, ◌≡◌, refl,
}
use be_auction_lot.Prelude.Int.{ℤ}
use be_auction_lot.AppError.{nil}
use be_auction_lot.Outcome.{Outcome, ok}
use be_auction_lot.Encoding.{hex_to_base64}
use be_auction_lot.Filestore.{
  Dbtx, InsertAndValidateMultiPartUploadParams, InsertAndValidateMultiPartUploadRow,
  InsertSinglePartUploadParams, InsertSinglePartUploadRow,
}
use be_auction_lot.Filestore.Rows.{ResultSet, row}
use be_auction_lot.Filestore.Rows.Laws.{collect_rows_iff}
use be_auction_lot.ImageStore.Types.{PresignedHttpRequest, S3Part, ImageEtag, bucket_name}
use be_auction_lot.ImageStore.Host.{Host, State, Call, call, call_rows}
use be_auction_lot.ImageStore.Batch.Split.{HasPointers}
use be_auction_lot.ImageStore.Extract.Total.{IsReady}
use be_auction_lot.ImageStore.Parts.{uploaded_parts}

-- A result set with these rows and no error.
abbrev pub results : {A : Type 0} → List A → ResultSet A
results rows = record { scans = map row rows; rows_err = nil }

abbrev pub HasEtag : S3Part → Type 0
HasEtag p = (e : String) × (n : ℤ) × (p.etag ≡ some e) × (p.part_number ≡ some n)

-- The hash is hex text.
abbrev pub is_hex : String → Bool
is_hex h = elim (hex_to_base64 h) [ none ↦ false | some _ ↦ true ]

-- Every call that the urls need is answered, and the rows of large files have their pointers.
pub record Serves (H : Host) : Type 0 where
  pub ready : IsReady H
  pub single :
      (db : Dbtx) (arg : InsertSinglePartUploadParams) (w : H.World)
      → (rows : List InsertSinglePartUploadRow) × ((H.query_insert_single db arg w).0
          ≡ ok (results rows))
  pub multi :
      (db : Dbtx) (arg : InsertAndValidateMultiPartUploadParams) (w : H.World)
      → (rows : List InsertAndValidateMultiPartUploadRow) × ((H.query_insert_multi db arg w).0
          ≡ ok (results rows))
        × All HasPointers rows
  pub puts :
      (key checksum : String) (w : H.World)
      → (url : PresignedHttpRequest) × ((H.presign_put_object bucket_name key checksum w).0
          ≡ ok url)
  pub presigns :
      (key : String) (n : ℤ) (id : String) (w : H.World)
      → (url : PresignedHttpRequest) × ((H.presign_upload_part bucket_name key n id w).0 ≡ ok url)
  pub lists :
      (key : String) (id : Option String) (w : H.World)
      → (parts : List S3Part) × ((H.list_parts bucket_name key id w).0 ≡ ok parts)
        × All HasEtag parts

pub uploaded_parts-ok :
    (ps : List S3Part) → All HasEtag ps → (tags : List ImageEtag) × (uploaded_parts ps ≡ ok tags)
unfolding uploaded_parts
uploaded_parts-ok [] h = ([], refl)
uploaded_parts-ok (p ∷ ps) ((e, n, has_e, has_n), h) =
    let (tags, rest) = uploaded_parts-ok ps h in
    (record { etag = e; part_number = n } ∷ tags, rw (has_e, has_n, rest) refl)

-- A query that is answered with rows.
pub call_rows-ok :
    {H : Host} {A : Type 0} (c : Call) (f : H.World → Outcome (ResultSet A) × H.World) (s : State H)
    (rows : List A)
    → (f s.world).0 ≡ ok (results rows)
    → (call_rows H c f s).0 ≡ ok rows
unfolding call_rows call
call_rows-ok c f s rows e = rw e ((collect_rows_iff (results rows) rows).1 (refl, refl))

pub All-any : {A : Type 0} (xs : List A) → All (λ _. Unit {0}) xs
All-any [] = tt
All-any (x ∷ xs) = (tt, All-any xs)
