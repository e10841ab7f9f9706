-- ===== src/ImageStore/Complete/Laws.antt =====
-- What a completion asks of S3, and how it ends.
use mathlib.Core.List.{Perm}
use be_auction_lot.Prelude.{
  String, ◌<>◌, Option, List, [], ◌∷◌, ◌++◌, length, false, some, none, ◌≡◌, refl, ◌∙◌, ap, sym,
  All, append_assoc, Bool-cases, inl, inr, ◌≢◌, Option-cases, All-weaken,
}
use be_auction_lot.Prelude.Int.{ℤ, pos, ◌-ℤ◌, ◌≤ℤ◌, eqb_ℤ, eqb_ℤ_iff}
use be_auction_lot.Outcome.{Outcome, ok, err, panic, deref}
use be_auction_lot.Action.{lift, or_fail}
use be_auction_lot.Action.Steps.{>>=-eq-ok, or_fail-eq-ok}
use be_auction_lot.AppError.{GoError}
use be_auction_lot.Filestore.{Queries, GetMultiPartUploadItemRow}
use be_auction_lot.ImageStore.Types.{CompletedPart, S3Part}
use be_auction_lot.ImageStore.Host.{
  Host, State, Call, call, read_item, listed_parts, completed_multipart,
}
use be_auction_lot.ImageStore.Failures.{internal_failure}
use be_auction_lot.ImageStore.Complete.{
  compare_parts, item_failure, parts_missing, drop_err, complete_if_all, complete_multi_part_upload,
}

-- The number of a part that has one.
abbrev pub number_of : CompletedPart → ℤ
number_of p = elim p.part_number [ none ↦ pos 0 | some n ↦ n ]

abbrev pub HasNumber : CompletedPart → Type 0
HasNumber p = p.part_number ≢ none

-- Neighbours are in order.
abbrev pub Ascending : (CompletedPart → ℤ) → List CompletedPart → Type 0
Ascending key [] = Unit
Ascending key (p ∷ []) = Unit
Ascending key (p ∷ (q ∷ ps)) = (key p ≤ℤ key q) × Ascending key (q ∷ ps)

-- `slices.SortFunc` as it is documented, for a comparison that is the difference of two keys on the
-- elements of the slice: it permutes the slice into ascending order.
abbrev pub Sorts : Host → Type 0
Sorts H =
    (cmp : CompletedPart → CompletedPart → Outcome ℤ) (key : CompletedPart → ℤ)
    (ps : List CompletedPart)
    → All (λ p. All (λ q. cmp p q ≡ ok (key p -ℤ key q)) ps) ps
    → (qs : List CompletedPart) × (H.sort_func cmp ps ≡ ok qs) × Ascending key qs × Perm qs ps

compare_parts-numbers :
    (p : CompletedPart)
    → HasNumber p
    → (q : CompletedPart) → HasNumber q
    → compare_parts p q ≡ ok (number_of p -ℤ number_of q)
unfolding compare_parts
compare_parts-numbers p hp q hq = elim (Option-cases p.part_number) [
  | inl e ↦ absurd (hp e)
  | inr (m, e) ↦ elim (Option-cases q.part_number) [
    | inl e' ↦ absurd (hq e')
    | inr (n, e') ↦ rw (e, e') refl
  ]
]

compare_parts_difference :
    (ps : List CompletedPart)
    → All HasNumber ps
    → All (λ p. All (λ q. compare_parts p q ≡ ok (number_of p -ℤ number_of q)) ps) ps
compare_parts_difference ps h =
    All-weaken HasNumber (λ p. All (λ q. compare_parts p q ≡ ok (number_of p -ℤ number_of q)) ps)
      (λ p hp.
        All-weaken HasNumber (λ q. compare_parts p q ≡ ok (number_of p -ℤ number_of q))
          (compare_parts-numbers p hp) ps h)
      ps h

deref-eq-ok : (o : Option ℤ) (n : ℤ) → deref o ≡ ok n → o ≡ some n
deref-eq-ok none n e = cc
deref-eq-ok (some m) n e = cc

err-ne-ok : (e : GoError) (a : Unit {0}) → err e ≡ ok a → ⊥
err-ne-ok e a h = cc

-- The error of the listing.
listing_failure : Host → String → GetMultiPartUploadItemRow → GoError → GoError
listing_failure H bucket item =
    internal_failure "imagestore.completeMultiPartUpload"
      ("cannot get uploaded image parts of key "
        <> (H.uuid_string item.storage_key <> (" and bucket " <> (bucket <> ":"))))
      "internal error"

eqb_ℤ-false : (a b : ℤ) → a ≢ b → eqb_ℤ a b ≡ false
eqb_ℤ-false a b h = elim (Bool-cases (eqb_ℤ a b)) [
  | inl e ↦ absurd (h ((eqb_ℤ_iff a b).0 e))
  | inr e ↦ e
]

module _ (H : Host) (query : Queries) (id : ℤ) (bucket : String) (parts : List CompletedPart) where
  -- The world after the attempt is read, and the answer of S3 in it.
  abbrev after_read : State H → H.World
  after_read s = (H.query_row_item query.db id s.world).1

  abbrev listing : GetMultiPartUploadItemRow → State H → Outcome (List S3Part) × H.World
  listing item s =
      H.list_parts bucket (H.uuid_string item.storage_key) item.upload_id (after_read s)

  -- The two calls that every run makes before its guard.
  abbrev prefix : GetMultiPartUploadItemRow → List Call
  prefix item =
      read_item query.db id
      ∷ (listed_parts bucket (H.uuid_string item.storage_key) item.upload_id ∷ [])

  abbrev guarded :
      GetMultiPartUploadItemRow
      → List CompletedPart
      → List S3Part
      → ℤ
      → State H
      → Outcome (Unit {0}) × State H
  guarded item sorted listed n s =
      complete_if_all H id bucket item sorted listed n
        (record { world = (listing item s).1; log = s.log ++ prefix item })

  module _ (s : State H) (item : GetMultiPartUploadItemRow) (sorted : List CompletedPart)
      (listed : List S3Part) (found : (H.query_row_item query.db id s.world).0 ≡ ok item)
      (in_order : H.sort_func compare_parts parts ≡ ok sorted)
      (answer : (listing item s).0 ≡ ok listed) where
    reaches_guard :
        (n : ℤ)
        → item.part_count ≡ some n
        → complete_multi_part_upload H query id bucket parts s ≡ guarded item sorted listed n s
    unfolding complete_multi_part_upload
    reaches_guard n counted =
        rw found (rw in_order (rw answer (rw counted (rw (append_assoc s.log) refl))))

    -- The parts that S3 is asked to assemble.
    abbrev assembled : Call
    assembled = completed_multipart bucket (H.uuid_string item.storage_key) item.upload_id sorted

    guarded_match : guarded item sorted listed (pos (length listed)) s ≡ (
      drop_err
          (H.complete_multipart_upload bucket
            (H.uuid_string item.storage_key)
            item.upload_id
            sorted
            (listing item s).1).0,
      record {
        world =
            (H.complete_multipart_upload bucket
              (H.uuid_string item.storage_key)
              item.upload_id
              sorted
              (listing item s).1).1;
        log = (s.log ++ prefix item) ++ (assembled ∷ []);
      },
    )
    unfolding complete_if_all call
    guarded_match = rw ((eqb_ℤ_iff (pos (length listed)) (pos (length listed))).1 refl) refl

    -- The failure of `CompleteMultipartUpload` is dropped: if the attempt is found, S3 lists as many
    -- parts as it has and the sort ends, the call returns without an error although S3 refused to
    -- complete the upload.
    pub complete_multi_part_upload-drops :
        (e : GoError)
        → item.part_count ≡ some (pos (length listed))
        → (H.complete_multipart_upload bucket
            (H.uuid_string item.storage_key)
            item.upload_id
            sorted
            (listing item s).1).0
          ≡ err e
        → (complete_multi_part_upload H query id bucket parts s).0 ≡ ok tt
    complete_multi_part_upload-drops e counted refused =
        ap (λ r. r.0) (reaches_guard (pos (length listed)) counted ∙ guarded_match)
        ∙ ap drop_err refused

    -- With another number of parts on S3 than the attempt has, the call fails with the error for
    -- missing parts and S3 is not asked to complete anything.
    pub complete_multi_part_upload-incomplete :
        (n : ℤ)
        → item.part_count ≡ some n
        → pos (length listed) ≢ n
        → ((complete_multi_part_upload H query id bucket parts s).0 ≡ err (parts_missing id))
          × ((complete_multi_part_upload H query id bucket parts s).1.log
              ≡ s.log
                ++ (read_item query.db id
                    ∷ (listed_parts bucket (H.uuid_string item.storage_key) item.upload_id ∷ [])))
    unfolding complete_if_all
    complete_multi_part_upload-incomplete n counted differ =
        let unequal : eqb_ℤ (pos (length listed)) n ≡ false = eqb_ℤ-false _ _ differ in
        rw (reaches_guard n counted) (rw unequal (refl, refl))

    -- An attempt without a part count, which is every attempt of a small file, makes the call panic.
    pub complete_multi_part_upload-panics :
        item.part_count ≡ none → (complete_multi_part_upload H query id bucket parts s).0 ≡ panic
    unfolding complete_multi_part_upload
    complete_multi_part_upload-panics uncounted =
        rw found (rw in_order (rw answer (rw uncounted refl)))

  complete_if_all-ok :
      (item : GetMultiPartUploadItemRow) (sorted : List CompletedPart) (listed : List S3Part)
      (n : ℤ) (s : State H)
      → (complete_if_all H id bucket item sorted listed n s).0 ≡ ok tt
      → n ≡ pos (length listed)
  unfolding complete_if_all
  complete_if_all-ok item sorted listed n s e = elim (Bool-cases (eqb_ℤ (pos (length listed)) n)) [
    | inl same ↦ sym ((eqb_ℤ_iff (pos (length listed)) n).0 same)
    | inr other ↦ absurd (err-ne-ok _ tt (rw other at e))
  ]

  -- If the sort of the parts ends and the call returns without an error, the attempt was found, S3
  -- listed as many parts as it has, and the call log grew by exactly three calls, of which the last
  -- asks S3 to assemble the client's parts, all of them and in ascending order.
  pub complete_multi_part_upload-done :
      Sorts H
      → All HasNumber parts
      → (s : State H) → (complete_multi_part_upload H query id bucket parts s).0 ≡ ok tt
      → (item : GetMultiPartUploadItemRow) × (listed : List S3Part) × (sorted : List CompletedPart)
        × ((H.query_row_item query.db id s.world).0 ≡ ok item)
        × ((listing item s).0 ≡ ok listed)
        × (item.part_count ≡ some (pos (length listed)))
        × Ascending number_of sorted
        × Perm sorted parts
        × ((complete_multi_part_upload H query id bucket parts s).1.log
            ≡ (s.log ++ prefix item)
              ++ (completed_multipart bucket (H.uuid_string item.storage_key) item.upload_id sorted
                  ∷ []))
  unfolding complete_multi_part_upload listing_failure call
  complete_multi_part_upload-done sorts numbered s e =
      let (sorted, in_order, ascending, perm) =
        sorts compare_parts number_of parts (compare_parts_difference parts numbered) in
      let read =
        or_fail (call H (read_item query.db id) (H.query_row_item query.db id)) (item_failure id) in
      let (item, read_ok, e1) = >>=-eq-ok read _ s tt e in
      let found =
        or_fail-eq-ok (call H (read_item query.db id) (H.query_row_item query.db id))
          (item_failure id) s item read_ok in
      let (sorted', sort_ok, e2) =
        >>=-eq-ok (lift (H.sort_func compare_parts parts)) _ (read s).1 tt e1 in
      let list_call =
        call H (listed_parts bucket (H.uuid_string item.storage_key) item.upload_id)
          (H.list_parts bucket (H.uuid_string item.storage_key) item.upload_id) in
      let (listed, list_ok, e3) =
        >>=-eq-ok (or_fail list_call (listing_failure H bucket item)) _ (read s).1 tt e2 in
      let answer =
        or_fail-eq-ok list_call (listing_failure H bucket item) (read s).1 listed list_ok in
      let (n, count_ok, e4) =
        >>=-eq-ok (lift (deref item.part_count)) _
          (or_fail list_call (listing_failure H bucket item) (read s).1).1 tt e3 in
      let matches : n ≡ pos (length listed) = complete_if_all-ok item sorted' listed n _ e4 in
      let counted = deref-eq-ok item.part_count n count_ok ∙ ap some matches in
      (
        item,
        listed,
        sorted,
        found,
        answer,
        counted,
        ascending,
        perm,
        ap (λ r. r.1.log)
            (reaches_guard s item sorted listed found in_order answer (pos (length listed)) counted
              ∙ guarded_match s item sorted listed found in_order answer),
      )
