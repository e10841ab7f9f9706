-- ===== src/Postgres/PartCount.antt =====
-- The parts of a new attempt: the generated column over a size that has gone through int32.
use be_auction_lot.Prelude.{
  ℕ, zero, suc, ◌+◌, ◌-◌, ◌/◌, ◌<◌, ◌≤◌, Option, none, some, [], ◌≡◌, ◌↔◌, refl, ap, subst, ◌∙◌,
  ◌⊎◌, inl, inr, length, arith, ltb, Bool-cases, ◌%◌, true, String,
}
use be_auction_lot.Prelude.Int.{ℤ, pos, negsuc, ◌+ℤ◌, ◌-ℤ◌, quot_ℤ, int32_of_uint, two_31, two_32}
use be_auction_lot.ImageStore.Types.{part_size}
use be_auction_lot.Action.{lift}
use be_auction_lot.Action.Rounds.{>>=-run}
use be_auction_lot.Outcome.{ok}
use be_auction_lot.Filestore.{
  multi_upload, InsertAndValidateMultiPartUploadParams, InsertAndValidateMultiPartUploadRow,
}
use be_auction_lot.Postgres.{ImageBlobUploadAttempt, Work, Functions}
use be_auction_lot.Postgres.Attempts.{find_pending, series, series_to, part_count}
use be_auction_lot.Postgres.Upserts.{
  MultiInput, or_data_error, upsert_multi, upsert_multi_on, multi_row, new_multi,
}
use be_auction_lot.Postgres.Abstract.{put_multi}
use be_auction_lot.Postgres.Refinement.{upsert_multi_on-Refines}

-- The parts that a file needs.
abbrev pub parts_needed : ℕ → ℕ
parts_needed size = (size + part_size - 1) / part_size

abbrev stored_count : ℤ → Option ℤ
stored_count z = quot_ℤ (z +ℤ pos part_size -ℤ pos 1) (pos part_size)

length-series : (start n : ℕ) → length (series start n) ≡ n
unfolding series
length-series start zero = refl
length-series start (suc n) = omega (arith, length-series (start + 1) n)

stored_count-pos : (n : ℕ) → stored_count (pos n) ≡ some (pos (parts_needed n))
unfolding quot_ℤ ◌+ℤ◌ ◌-ℤ◌
stored_count-pos n = ground arith

stored_count-negsuc : (n : ℕ) → series_to (stored_count (negsuc n)) ≡ []
unfolding quot_ℤ ◌+ℤ◌ ◌-ℤ◌ series
stored_count-negsuc n = ground arith

-- The largest size that the validation of a message lets through.
abbrev pub max_file_size : ℕ
max_file_size = 6442450944

-- What int32 makes of an accepted size.
int32_of_uint-cases :
    (size : ℕ)
    → size ≤ max_file_size
    → ((size < two_31) × (int32_of_uint size ≡ pos size))
      ⊎ (((m : ℕ) × (int32_of_uint size ≡ negsuc m) × (two_31 ≤ size))
          ⊎ ((two_32 ≤ size) × (int32_of_uint size ≡ pos (size - two_32))))
unfolding int32_of_uint
int32_of_uint-cases size h = elim (Bool-cases (ltb size two_31)) [
  | inl e ↦ inl (ground arith)
  | inr e ↦ elim (Bool-cases (ltb (size % two_32) two_31)) [
    | inl low ↦ inr (inr (ground arith))
    | inr high ↦ inr (inl (two_32 - 1 - size % two_32, ground arith, ground arith))
  ]
]

-- How many parts an integer size is given.
abbrev count_of : ℤ → ℕ
count_of z = length (series_to (stored_count z))

count_of-eq : (z : ℤ) (n : ℕ) → series_to (stored_count z) ≡ series 1 n → count_of z ≡ n
count_of-eq z n same = ap length same ∙ length-series 1 n

stored_count_iff :
    (size : ℕ)
    → size ≤ max_file_size
    → (series_to (stored_count (int32_of_uint size)) ≡ series 1 (parts_needed size))
      ↔ (size < two_31)
stored_count_iff size h = elim (int32_of_uint-cases size h) [
  | inl (small, e) ↦ (λ _. small, λ _. rw e (ap series_to (stored_count-pos size)))
  | inr (inl (m, e, large)) ↦ (
    λ same. omega (
      arith,
      count_of-eq (int32_of_uint size) (parts_needed size) same,
      ap count_of e ∙ ap length (stored_count-negsuc m),
    ),
    λ small. absurd (omega arith),
  )
  | inr (inr (large, e)) ↦ (
    λ same. omega (
      arith,
      count_of-eq (int32_of_uint size) (parts_needed size) same,
      ap count_of e
          ∙ count_of-eq (pos (size - two_32)) (parts_needed (size - two_32))
              (ap series_to (stored_count-pos (size - two_32))),
    ),
    λ small. absurd (omega arith),
  )
]

part_count-multi :
    (a : ImageBlobUploadAttempt)
    → a.upload_type ≡ multi_upload
    → a.part_size ≡ some (pos part_size)
    → part_count a ≡ stored_count a.file_size
unfolding part_count
part_count-multi a e k = rw e (rw k refl)

module _ (f : Functions) where
  multi_row-parts_iff :
      (arg : InsertAndValidateMultiPartUploadParams) (i : MultiInput) (h : String) (size : ℕ)
      (old : Option ImageBlobUploadAttempt) (w w' : Work) (r : InsertAndValidateMultiPartUploadRow)
      → arg.upload_type ≡ multi_upload
      → arg.part_size ≡ pos part_size
      → i.file_size ≡ int32_of_uint size
      → size ≤ max_file_size
      → find_pending h arg.lot_id w.tables.attempts ≡ old
      → upsert_multi_on f arg i h old w ≡ (ok r, w')
      → r.is_inserted ≡ true
      → (r.parts ≡ series 1 (parts_needed size)) ↔ (size < two_31)
  unfolding put_multi multi_row
  multi_row-parts_iff arg i h size none w w' r kind unit stored fits found e new =
      let done =
        upsert_multi_on-Refines f arg i h none w w' (λ h' l'. find_pending h' l' w.tables.attempts)
          r (λ h' l'. refl) found e in
      let a = new_multi arg i h w.counters in
      subst (λ q. (q.parts ≡ series 1 (parts_needed size)) ↔ (size < two_31)) done.row
        (rw (part_count-multi a kind (ap some unit)) (rw stored (stored_count_iff size fits)))
  multi_row-parts_iff arg i h size (some old) w w' r kind unit stored fits found e new =
      let done =
        upsert_multi_on-Refines f arg i h (some old) w w'
          (λ h' l'. find_pending h' l' w.tables.attempts) r (λ h' l'. refl) found e in
      absurd (ground (arith, ap (λ q. q.is_inserted) done.row))

  -- With the part size of the program, a new attempt for a file of an accepted size has
  -- the parts 1, 2, …, up to the size divided by the part size and rounded up, exactly if the size
  -- is below 2 GiB.
  pub upsert_multi-parts_iff :
      (arg : InsertAndValidateMultiPartUploadParams) (i : MultiInput) (size : ℕ) (w w' : Work)
      (r : InsertAndValidateMultiPartUploadRow)
      → arg.upload_type ≡ multi_upload
      → arg.part_size ≡ pos part_size
      → i.file_size ≡ int32_of_uint size
      → size ≤ max_file_size
      → upsert_multi f arg i w ≡ (ok r, w')
      → r.is_inserted ≡ true
      → (r.parts ≡ series 1 (parts_needed size)) ↔ (size < two_31)
  unfolding upsert_multi
  upsert_multi-parts_iff arg i size w w' r kind unit stored fits e new =
      let (h, _, run) = >>=-run (lift (or_data_error (f.canonical i.sha256))) _ w r w' e in
      multi_row-parts_iff arg i h size (find_pending h arg.lot_id w.tables.attempts) w w' r kind
        unit stored fits refl run new
