-- ===== src/Postgres/Resume.antt =====
-- An upload that is asked for again: the second upsert of the same file and lot.
use be_auction_lot.Prelude.{
  ℕ, String, true, false, Option, none, some, ◌≡◌, refl, sym, ap, subst, ◌∙◌, inl, inr, arith,
  Bool-cases,
}
use be_auction_lot.Prelude.Int.{ℤ}
use be_auction_lot.Outcome.{ok}
use be_auction_lot.Filestore.{
  InsertAndValidateMultiPartUploadParams, InsertAndValidateMultiPartUploadRow,
}
use be_auction_lot.Postgres.{ImageBlobUploadAttempt, Work, Functions}
use be_auction_lot.Postgres.Attempts.{find_pending, series_to, part_count, renewed, is_still_valid}
use be_auction_lot.Postgres.Upserts.{MultiInput, upsert_multi, multi_row, new_multi}
use be_auction_lot.Postgres.Index.{same_key_iff}
use be_auction_lot.Postgres.Abstract.{put_multi, Pending}
use be_auction_lot.Postgres.Statements.{upsert_multi-Simulates}

-- The row of an attempt, apart from the two flags.
abbrev RowOf : ImageBlobUploadAttempt → InsertAndValidateMultiPartUploadRow → Type 0
RowOf a r =
    (r.image_blob_upload_attempt_id ≡ a.image_blob_upload_attempt_id)
    × (r.sha256 ≡ a.sha256)
    × (r.storage_key ≡ a.storage_key)
    × (r.upload_id ≡ a.upload_id)
    × (r.parts ≡ series_to (part_count a))
    × (r.part_size ≡ a.part_size)

-- The second row goes on with the upload of the first.
pub record Resumes (r r' : InsertAndValidateMultiPartUploadRow) : Type 0 where
  pub is_old : r'.is_inserted ≡ false
  pub same_id : r'.image_blob_upload_attempt_id ≡ r.image_blob_upload_attempt_id
  pub same_hash : r'.sha256 ≡ r.sha256
  pub same_key : r'.storage_key ≡ r.storage_key
  pub same_upload : r'.upload_id ≡ r.upload_id
  pub same_parts : r'.is_valid ≡ true → (r'.parts ≡ r.parts) × (r'.part_size ≡ r.part_size)

renewed-Resumes :
    (part_size : ℤ) (now : ℕ) (a : ImageBlobUploadAttempt) (r : InsertAndValidateMultiPartUploadRow)
    → RowOf a r
    → Resumes r (multi_row now (some a) (renewed part_size now a))
unfolding renewed multi_row
renewed-Resumes part_size now a r (id, hash, key, upload, parts, size) =
    elim (Bool-cases (is_still_valid now a.valid_until)) [
      | inl valid ↦ rw valid (record {
        is_old = refl;
        same_id = sym id;
        same_hash = sym hash;
        same_key = sym key;
        same_upload = sym upload;
        same_parts = λ _. (sym parts, sym size);
      })
      | inr expired ↦ rw expired (record {
        is_old = refl;
        same_id = sym id;
        same_hash = sym hash;
        same_key = sym key;
        same_upload = sym upload;
        same_parts = λ e. absurd (ground (arith, e));
      })
    ]

module _ (f : Functions) where
  -- The attempt behind an upsert, under the hash of its row.
  abbrev Left :
      InsertAndValidateMultiPartUploadParams
      → MultiInput
      → Work
      → InsertAndValidateMultiPartUploadRow
      → Type 0
  Left arg i w' r =
      (h : String) × (a : ImageBlobUploadAttempt) × (f.canonical i.sha256 ≡ some h)
      × (find_pending h arg.lot_id w'.tables.attempts ≡ some a)
      × RowOf a r

  put_multi-Left :
      (arg : InsertAndValidateMultiPartUploadParams) (i : MultiInput) (h : String)
      (old : Option ImageBlobUploadAttempt) (p : Pending)
      → (a : ImageBlobUploadAttempt) × ((put_multi arg i h old p).1.find h arg.lot_id ≡ some a)
        × RowOf a (put_multi arg i h old p).0
  unfolding put_multi multi_row
  put_multi-Left arg i h none p = (
    new_multi arg i h p.counters,
    rw ((same_key_iff h arg.lot_id h arg.lot_id).1 (refl, refl)) refl,
    (refl, refl, refl, refl, refl, refl),
  )
  put_multi-Left arg i h (some old) p = (
    renewed arg.part_size p.counters.now old,
    rw ((same_key_iff h arg.lot_id h arg.lot_id).1 (refl, refl)) refl,
    (refl, refl, refl, refl, refl, refl),
  )

  upsert_multi-Left :
      (arg : InsertAndValidateMultiPartUploadParams) (i : MultiInput) (w w' : Work)
      (r : InsertAndValidateMultiPartUploadRow)
      → upsert_multi f arg i w ≡ (ok r, w')
      → Left arg i w' r
  upsert_multi-Left arg i w w' r e =
      let p : Pending = record {
        find = λ h l. find_pending h l w.tables.attempts;
        counters = w.counters;
      } in
      let (p', (h, canon, put), (shows, _), _) =
        upsert_multi-Simulates f arg w i r w' p ((λ h l. refl), refl) e in
      let (a, found, row) = put_multi-Left arg i h (p.find h arg.lot_id) p in
      (
        h,
        a,
        canon,
        shows h arg.lot_id ∙ (ap (λ x. x.1.find h arg.lot_id) (sym put) ∙ found),
        subst (λ x. RowOf a x.0) put row,
      )

  -- A multipart upsert of a hash and a lot, and later another one of the same hash, in any spelling,
  -- and the same lot, with the attempts as the first has left them: the second returns the attempt of
  -- the first, with its storage key and its upload id and not those of its own arguments, and if
  -- that is still valid also with its parts and its part size.
  pub upsert_multi-Resumes :
      (arg arg' : InsertAndValidateMultiPartUploadParams) (i i' : MultiInput) (w w' v v' : Work)
      (r r' : InsertAndValidateMultiPartUploadRow)
      → upsert_multi f arg i w ≡ (ok r, w')
      → v.tables.attempts ≡ w'.tables.attempts
      → arg'.lot_id ≡ arg.lot_id
      → f.canonical i'.sha256 ≡ f.canonical i.sha256
      → upsert_multi f arg' i' v ≡ (ok r', v')
      → Resumes r r'
  unfolding put_multi
  upsert_multi-Resumes arg arg' i i' w w' v v' r r' first kept lot hash second =
      let (h, a, canon, found, row) = upsert_multi-Left arg i w w' r first in
      let p : Pending = record {
        find = λ h l. find_pending h l v.tables.attempts;
        counters = v.counters;
      } in
      let (p', (h', canon', put'), _, _) =
        upsert_multi-Simulates f arg' v i' r' v' p ((λ h l. refl), refl) second in
      let same : h' ≡ h = ground (arith, sym canon' ∙ (hash ∙ canon)) in
      let again : find_pending h' arg'.lot_id v.tables.attempts ≡ some a =
        rw same (rw lot (rw kept found)) in
      subst (Resumes r) (ap (λ x. x.0) (sym (ap (λ o. put_multi arg' i' h' o p) again) ∙ put'))
        (renewed-Resumes arg'.part_size v.counters.now a r row)
