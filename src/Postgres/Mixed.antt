-- ===== src/Postgres/Mixed.antt =====
-- A file that was announced as a small one and is announced again as a large one: the multipart
-- upsert meets the attempt of the single insert, which has no upload id.
use be_auction_lot.Prelude.{
  String, none, some, List, [], ◌∷◌, ◌≡◌, refl, sym, ap, ◌∙◌, arith, Bool-cases, inl, inr,
}
use be_auction_lot.Prelude.Int.{ℤ}
use be_auction_lot.Outcome.{ok, panic}
use be_auction_lot.Filestore.{
  Uuid, InsertAndValidateMultiPartUploadParams, InsertAndValidateMultiPartUploadRow,
}
use be_auction_lot.ImageStore.Batch.{
  generation_data, segregate_row, segregate_from, segregate_multi_upload_files,
}
use be_auction_lot.Postgres.{ImageBlobUploadAttempt, Work, Functions}
use be_auction_lot.Postgres.Attempts.{find_pending, renewed, is_still_valid}
use be_auction_lot.Postgres.Upserts.{MultiInput, upsert_multi, multi_row}
use be_auction_lot.Postgres.Abstract.{Pending, put_multi}
use be_auction_lot.Postgres.Statements.{upsert_multi-Simulates}

renewed-upload_id :
    (z : ℤ) (now : _) (a : ImageBlobUploadAttempt) → (renewed z now a).upload_id ≡ a.upload_id
unfolding renewed
renewed-upload_id z now a = elim (Bool-cases (is_still_valid now a.valid_until)) [
  | inl e ↦ rw e refl
  | inr e ↦ rw e refl
]

module _ (uuid_string : Uuid → String) where
  segregate_row-panics :
      (row : InsertAndValidateMultiPartUploadRow) (acc : _)
      → row.upload_id ≡ none
      → segregate_row uuid_string row acc ≡ panic
  unfolding segregate_row generation_data
  segregate_row-panics row (n, r) e = ground (arith, e)

  segregate-panics :
      (row : InsertAndValidateMultiPartUploadRow) (rows : List InsertAndValidateMultiPartUploadRow)
      → row.upload_id ≡ none
      → segregate_multi_upload_files uuid_string (row ∷ rows) ≡ panic
  unfolding segregate_multi_upload_files segregate_from
  segregate-panics row rows e = rw (segregate_row-panics row ([], []) e) refl

  module _ (f : Functions) where
    -- If the attempt that is pending for the hash and the lot has no upload id, as those of the
    -- single insert, and the multipart upsert of that hash and lot ends well, then the split of rows
    -- that begin with its row panics.
    pub upsert_multi-panics :
        (arg : InsertAndValidateMultiPartUploadParams) (i : MultiInput) (h : String)
        (a : ImageBlobUploadAttempt) (w w' : Work) (r : InsertAndValidateMultiPartUploadRow)
        (rows : List InsertAndValidateMultiPartUploadRow)
        → f.canonical i.sha256 ≡ some h
        → find_pending h arg.lot_id w.tables.attempts ≡ some a
        → a.upload_id ≡ none
        → upsert_multi f arg i w ≡ (ok r, w')
        → segregate_multi_upload_files uuid_string (r ∷ rows) ≡ panic
    unfolding put_multi multi_row
    upsert_multi-panics arg i h a w w' r rows canon found single e =
        let p : Pending = record {
          find = λ h l. find_pending h l w.tables.attempts;
          counters = w.counters;
        } in
        let (p', (h', canon', put), _, _) =
          upsert_multi-Simulates f arg w i r w' p ((λ h l. refl), refl) e in
        let same : h' ≡ h = ground (arith, sym canon' ∙ canon) in
        let met : find_pending h' arg.lot_id w.tables.attempts ≡ some a = rw same found in
        let row = ap (λ x. x.0.upload_id) (sym put ∙ ap (λ o. put_multi arg i h' o p) met) in
        segregate-panics r rows (row ∙ (renewed-upload_id arg.part_size w.counters.now a ∙ single))
