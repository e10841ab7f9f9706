-- ===== src/ImageStore/Upload/Laws.antt =====
-- The transaction of an upload: what `initiateUpload` calls, in which order, however it ends.
use be_auction_lot.Prelude.{
  subst, String, List, [], ◌∷◌, ◌++◌, ◌≡◌, refl, sym, ap, ◌∙◌, ◌⊎◌, inl, inr, All, append-nil,
  append_assoc,
}
use be_auction_lot.Outcome
use be_auction_lot.AppError.{GoError}
use be_auction_lot.Outcome.{Outcome, ok, err, panic}
use be_auction_lot.Action.{continue_with, ◌>>◌, return}
use be_auction_lot.Filestore.{Uuid, Queries, with_tx, tx}
use be_auction_lot.ImageStore.Types.{UploadFile, UploadFileRequestResult, PresignedFileUrl}
use be_auction_lot.ImageStore.Host.{Host, State, Run, Call, begun, committed, rolled_back}
use be_auction_lot.ImageStore.Trace.{effect, replay, replay-append}
use be_auction_lot.ImageStore.Batch.{intent_batch_upload}
use be_auction_lot.ImageStore.Upload.{
  unknown_lot, deferring_rollback, begin_transaction, commit_transaction, prepare_upload,
  upload_in_transaction, initiate_upload,
}
use be_auction_lot.ImageStore.Upload.Calls.{IsInside, prepare_upload-Inside}

abbrev pub IsFailure : {A : Type 0} → Outcome A → Type 0
IsFailure (ok _) = ⊥
IsFailure _ = Unit

-- The calls of one upload, by how it ends: refused before the database is used; the transaction did
-- not begin; given up and rolled back; or committed, and then the deferred rollback. `inside` are
-- the calls between.
pub data IsSession (H : Host) (w : H.World) {A : Type 0} (r : Outcome A) (calls : List Call)
    : Type 0 where
  refused : calls ≡ [] → IsFailure r → IsSession H w r calls
  not_begun : calls ≡ begun ∷ [] → IsFailure (H.begin w).0 → IsFailure r → IsSession H w r calls
  given_up :
      (inside : List Call)
      → All IsInside inside
      → calls ≡ begun ∷ (inside ++ (rolled_back ∷ []))
      → IsFailure r
      → IsSession H w r calls
  ended :
      (inside : List Call)
      → All IsInside inside
      → calls ≡ begun ∷ (inside ++ (committed ∷ (rolled_back ∷ [])))
      → (IsFailure r → IsFailure (H.commit (replay H (begun ∷ inside) w)).0)
      → IsSession H w r calls

module _ (H : Host) where
  -- Behind the preparation there is the commit, or nothing after a failure.
  abbrev Ended : {A : Type 0} → State H → Outcome A × State H → Type 0
  Ended s x =
      ((x.1 ≡ s) × IsFailure x.0)
      ⊎ ((x.1.log ≡ s.log ++ (committed ∷ []))
          × (x.1.world ≡ effect H committed s.world)
          × (IsFailure x.0 → IsFailure (H.commit s.world).0))

  abbrev finish :
      List UploadFile → List UploadFile × List PresignedFileUrl → Run H UploadFileRequestResult
  finish duplicate_files prepared =
      commit_transaction H
      >> return (record {
        duplicate_files = duplicate_files;
        already_uploaded_files = prepared.0;
        presigned_file_urls = prepared.1;
      })

  continue-Ended :
      {A B : Type 0} (r : Outcome A) (s : State H) (b : B)
      → (continue_with (λ _. return b) r s).1 ≡ s
  continue-Ended (ok a) s b = refl
  continue-Ended (err e) s b = refl
  continue-Ended panic s b = refl

  map_err-failed :
      {A : Type 0} (r : Outcome A) (g : GoError → GoError)
      → IsFailure (Outcome.map_err g r)
      → IsFailure r
  map_err-failed (ok a) g f = f
  map_err-failed (err e) g f = tt
  map_err-failed panic g f = tt

  continue-failed :
      {A B : Type 0} (r : Outcome A) (g : GoError → GoError) (s : State H) (b : B)
      → IsFailure (continue_with (λ _. return b) (Outcome.map_err g r) s).0
      → IsFailure r
  continue-failed (ok a) g s b f = f
  continue-failed (err e) g s b f = tt
  continue-failed panic g s b f = tt

  finish-Ended :
      (duplicates : List UploadFile) (r : Outcome (List UploadFile × List PresignedFileUrl))
      (s : State H)
      → Ended s (continue_with (finish duplicates) r s)
  unfolding commit_transaction effect
  finish-Ended duplicates (ok prepared) s =
      let after = commit_transaction H s in
      let same = continue-Ended after.0 after.1 (record {
        duplicate_files = duplicates;
        already_uploaded_files = prepared.0;
        presigned_file_urls = prepared.1;
      }) in
      inr (
        ap (λ t. t.log) same,
        ap (λ t. t.world) same,
        continue-failed (H.commit s.world).0 _ after.1 _,
      )
  finish-Ended duplicates (err e) s = inl (refl, tt)
  finish-Ended duplicates panic s = inl (refl, tt)

  -- What is done inside the transaction, from its first state.
  abbrev Worked : {A : Type 0} → State H → Outcome A × State H → Type 0
  Worked s x =
      (inside : List Call) × All IsInside inside
      × (((x.1.log ≡ s.log ++ inside) × (x.1.world ≡ replay H inside s.world) × IsFailure x.0)
          ⊎ ((x.1.log ≡ (s.log ++ inside) ++ (committed ∷ []))
              × (x.1.world ≡ effect H committed (replay H inside s.world))
              × (IsFailure x.0 → IsFailure (H.commit (replay H inside s.world)).0)))

  upload_in_transaction-Worked :
      (files duplicates : List UploadFile) (lot_id : Uuid) (query : Queries)
      → query.db ≡ tx
      → (s : State H) → Worked s (upload_in_transaction H files duplicates lot_id query s)
  unfolding upload_in_transaction
  upload_in_transaction-Worked files duplicates lot_id query in_tx s =
      let (inside, grown, moved, good) = prepare_upload-Inside H lot_id query in_tx files s in
      let prepared = prepare_upload H files lot_id query s in
      (
        inside,
        good,
        elim (finish-Ended duplicates prepared.0 prepared.1) [
          | inl (same, failed) ↦
              inl (ap (λ t. t.log) same ∙ grown, ap (λ t. t.world) same ∙ moved, failed)
          | inr (more, after, why) ↦ inr (
            more ∙ ap (λ l. l ++ (committed ∷ [])) grown,
            after ∙ ap (effect H committed) moved,
            λ f. subst (λ w. IsFailure (H.commit w).0) moved (why f),
          )
        ],
      )

  -- The calls of an action that has run, as a session, and what they did to the world.
  abbrev HasSession : {A : Type 0} → State H → Outcome A × State H → Type 0
  HasSession s x =
      (calls : List Call) × (x.1.log ≡ s.log ++ calls)
      × (x.1.world ≡ replay H calls s.world)
      × IsSession H s.world x.0 calls

  regroup :
      (log inside rest : List Call)
      → ((log ++ (begun ∷ [])) ++ inside) ++ rest ≡ log ++ (begun ∷ (inside ++ rest))
  regroup log inside rest = simp append_assoc

  -- The state when the transaction has begun.
  abbrev Opened : State H → State H → Type 0
  Opened s s1 = (s1.log ≡ s.log ++ (begun ∷ [])) × (s1.world ≡ effect H begun s.world)

  transaction_session :
      (files duplicates : List UploadFile) (lot_id : Uuid) (query : Queries)
      → query.db ≡ tx
      → (s s1 : State H) → Opened s s1
      → HasSession s
          (deferring_rollback H (upload_in_transaction H files duplicates lot_id query) s1)
  unfolding deferring_rollback effect
  transaction_session files duplicates lot_id query in_tx s s1 (opened, entered) =
      let (inside, good, how) =
        upload_in_transaction-Worked files duplicates lot_id query in_tx s1 in
      let worked : replay H inside s1.world ≡ replay H inside (effect H begun s.world) =
        ap (replay H inside) entered in
      elim how [
        | inl (grown, moved, failed) ↦ (
          begun ∷ (inside ++ (rolled_back ∷ [])),
          ap (λ l. l ++ (rolled_back ∷ [])) (grown ∙ ap (λ l. l ++ inside) opened)
              ∙ regroup s.log inside (rolled_back ∷ []),
          ap (effect H rolled_back) (moved ∙ worked)
              ∙ sym (replay-append H inside (rolled_back ∷ []) (effect H begun s.world)),
          given_up inside good refl failed,
        )
        | inr (grown, moved, why) ↦ (
          begun ∷ (inside ++ (committed ∷ (rolled_back ∷ []))),
          ap (λ l. l ++ (rolled_back ∷ []))
                (grown ∙ ap (λ l. (l ++ inside) ++ (committed ∷ [])) opened)
              ∙ (append_assoc ((s.log ++ (begun ∷ [])) ++ inside) (committed ∷ [])
                    (rolled_back ∷ [])
                  ∙ regroup s.log inside (committed ∷ (rolled_back ∷ []))),
          ap (effect H rolled_back) (moved ∙ ap (effect H committed) worked)
              ∙ sym (
                  replay-append H inside (committed ∷ (rolled_back ∷ [])) (effect H begun s.world)),
          ended inside good refl (λ f. subst (λ w. IsFailure (H.commit w).0) worked (why f)),
        )
      ]

  begin_session :
      (files duplicates : List UploadFile) (lot_id : Uuid) (query : Queries)
      → query.db ≡ tx
      → (s s1 : State H) (r : Outcome (Unit {0})) → Opened s s1
      → (IsFailure r → IsFailure (H.begin s.world).0)
      → HasSession s (
          continue_with
            (λ _. deferring_rollback H (upload_in_transaction H files duplicates lot_id query))
            r
            s1)
  begin_session files duplicates lot_id query in_tx s s1 (ok _) opened why =
      transaction_session files duplicates lot_id query in_tx s s1 opened
  begin_session files duplicates lot_id query in_tx s s1 (err e) (opened, entered) why =
      (begun ∷ [], opened, entered, not_begun refl (why tt) tt)
  begin_session files duplicates lot_id query in_tx s s1 panic (opened, entered) why =
      (begun ∷ [], opened, entered, not_begun refl (why tt) tt)

  upload_session :
      (files duplicates : List UploadFile) (query : Queries) (s : State H) (r : Outcome Uuid)
      → HasSession s (
          continue_with
            (λ u.
              begin_transaction H
              >> deferring_rollback H
                  (upload_in_transaction H files duplicates u (with_tx query tx)))
            r
            s)
  unfolding begin_transaction with_tx effect
  upload_session files duplicates query s (ok u) =
      begin_session files duplicates u (with_tx query tx) refl s (begin_transaction H s).1
        (begin_transaction H s).0 (refl, refl) (map_err-failed (H.begin s.world).0 _)
  upload_session files duplicates query s (err e) =
      ([], sym (append-nil s.log), refl, refused refl tt)
  upload_session files duplicates query s panic =
      ([], sym (append-nil s.log), refl, refused refl tt)

  -- Whatever the libraries answer, an upload uses the database in one session: nothing if the lot
  -- id is no uuid; a begin alone if that fails; else one begin, then calls that use the database
  -- through the transaction only, then at most one commit, and the rollback as the last call, which
  -- runs on errors and panics too. Without a commit the upload has failed, and
  -- with one only if the commit has. The world afterwards is
  -- what these calls, in order, have made of it.
  pub initiate_upload-IsSession :
      (query : Queries) (files : List UploadFile) (lot_id : String) (s : State H)
      → (calls : List Call) × ((initiate_upload H query files lot_id s).1.log ≡ s.log ++ calls)
        × ((initiate_upload H query files lot_id s).1.world ≡ replay H calls s.world)
        × IsSession H s.world (initiate_upload H query files lot_id s).0 calls
  unfolding initiate_upload
  initiate_upload-IsSession query files lot_id s =
      upload_session (intent_batch_upload files).0 (intent_batch_upload files).1 query s
        (Outcome.map_err unknown_lot (H.uuid_parse lot_id))
