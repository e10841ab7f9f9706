-- ===== src/Postgres/Refinement.antt =====
-- One row of an upsert of file_insert.sql.go, on the table and on the map of Abstract.
use be_auction_lot.Prelude.{
  ℕ, String, Bool, true, false, Option, none, some, List, [], ◌∷◌, ◌≡◌, refl, ap, subst, ◌∙◌, inl,
  inr, if◌then◌else◌, arith, Bool-cases,
}
use be_auction_lot.Prelude.Int.{ℤ}
use be_auction_lot.AppError.{GoError}
use be_auction_lot.Outcome.{Outcome, ok, err, ok-injective}
use be_auction_lot.Filestore.{
  Uuid, InsertAndValidateMultiPartUploadParams, InsertAndValidateMultiPartUploadRow,
  InsertSinglePartUploadParams, InsertSinglePartUploadRow,
}
use be_auction_lot.Postgres.{ImageBlobUploadAttempt, Counters, Work, Functions}
use be_auction_lot.Postgres.Attempts.{
  data_error, find_pending, is_pending_for, is_still_valid, rewritten, renewed,
}
use be_auction_lot.Postgres.Upserts.{
  MultiInput, SingleInput, add_attempt, put_attempt, new_multi, new_single, upsert_multi_on,
  upsert_single_on,
}
use be_auction_lot.Postgres.Index.{
  same_key, IsPending, is_pending_for_iff, find_pending-add, find_pending-replace, IsIndexed,
  IsIndexed-add, IsIndexed-replace,
}
use be_auction_lot.Postgres.Abstract.{Pending, put, one_more, put_multi, put_single, Shows}

pub find_pending-IsPending :
    (h : String) (l : Uuid) (xs : List ImageBlobUploadAttempt) (a : ImageBlobUploadAttempt)
    → find_pending h l xs ≡ some a
    → IsPending h l a
unfolding find_pending
find_pending-IsPending h l [] a e = cc
find_pending-IsPending h l (x ∷ xs) a e = elim (Bool-cases (is_pending_for h l x)) [
  | inl hit ↦
      subst (IsPending h l) {x = x} {y = a} (ground arith) ((is_pending_for_iff h l x).0 hit)
  | inr miss ↦ find_pending-IsPending h l xs a (ground arith)
]

renewed-IsPending :
    (h : String) (l : Uuid) (part_size : ℤ) (now : ℕ) (a : ImageBlobUploadAttempt)
    → IsPending h l a
    → IsPending h l (renewed part_size now a)
unfolding renewed
renewed-IsPending h l part_size now a p = elim (Bool-cases (is_still_valid now a.valid_until)) [
  | inl e ↦ rw e p
  | inr e ↦ rw e p
]

-- The attempt is in the table behind the step, and the look-ups of other keys are as before.
record Stored (h : String) (l : Uuid) (a : ImageBlobUploadAttempt) (w w' : Work) : Type 0 where
  finds :
      (h' : String) (l' : Uuid)
      → find_pending h' l' w'.tables.attempts
        ≡ (if same_key h l h' l' then some a else find_pending h' l' w.tables.attempts)
  index : IsIndexed w.tables.attempts → IsIndexed w'.tables.attempts

add_attempt-Stored :
    (h : String) (l : Uuid) (a : ImageBlobUploadAttempt) (w : Work)
    → find_pending h l w.tables.attempts ≡ none
    → IsPending h l a
    → Stored h l a w (add_attempt h a w)
unfolding add_attempt
add_attempt-Stored h l a w e p = record {
  finds = λ h' l'. find_pending-add w.tables.attempts h l a h' l' p e;
  index = IsIndexed-add w.tables.attempts h l a p e;
}

put_attempt-Stored :
    (h : String) (l : Uuid) (a old : ImageBlobUploadAttempt) (w : Work)
    → find_pending h l w.tables.attempts ≡ some old
    → IsPending h l a
    → Stored h l a w (put_attempt h l a w)
unfolding put_attempt
put_attempt-Stored h l a old w e p = record {
  finds = λ h' l'. find_pending-replace w.tables.attempts h l a old h' l' p e;
  index = IsIndexed-replace w.tables.attempts h l a old p e;
}

-- What one row of an upsert has done, on the table and on the map.
pub record Refines {R : Type 0} (w : Work) (r : R) (w' : Work) (x : R × Pending) : Type 0 where
  pub row : x.0 ≡ r
  pub shows : Shows w' x.1
  pub index : IsIndexed w.tables.attempts → IsIndexed w'.tables.attempts

else-run :
    {S A : Type 0} (b : Bool) (x : GoError) (w : S) (a r : A) (s t : S)
    → if◌then◌else◌ {A = Outcome A × S} b (err x, w) (ok a, s) ≡ (ok r, t)
    → (a ≡ r) × (s ≡ t)
else-run true x w a r s t e = cc
else-run false x w a r s t e = (ok-injective a r (ap (λ p. p.0) e), ap (λ p. p.1) e)

Stored-Refines :
    {R : Type 0} (h : String) (l : Uuid) (a : ImageBlobUploadAttempt) (w w' w'' : Work)
    (find : String → Uuid → Option ImageBlobUploadAttempt) (c : Counters) (q r : R)
    → Stored h l a w w'
    → ((h' : String) (l' : Uuid) → find_pending h' l' w.tables.attempts ≡ find h' l')
    → w'.counters ≡ c
    → q ≡ r
    → w' ≡ w''
    → Refines w r w'' (q, record { find = put h l a find; counters = c })
Stored-Refines h l a w w' w'' find c q r stored same counted row moved =
    subst (λ u. Refines w r u (q, record { find = put h l a find; counters = c })) moved
      (record {
        row = row;
        shows = (
          λ h' l'.
              stored.finds h' l' ∙ ap (λ o. if same_key h l h' l' then some a else o) (same h' l'),
          counted,
        );
        index = stored.index;
      })

module _ (f : Functions) where
  pub upsert_multi_on-Refines :
      (arg : InsertAndValidateMultiPartUploadParams) (i : MultiInput) (h : String)
      (old : Option ImageBlobUploadAttempt) (w w' : Work)
      (find : String → Uuid → Option ImageBlobUploadAttempt)
      (r : InsertAndValidateMultiPartUploadRow)
      → ((h' : String) (l' : Uuid) → find_pending h' l' w.tables.attempts ≡ find h' l')
      → find_pending h arg.lot_id w.tables.attempts ≡ old
      → upsert_multi_on f arg i h old w ≡ (ok r, w')
      → Refines w r w' (put_multi arg i h old (record { find = find; counters = w.counters }))
  unfolding upsert_multi_on put_multi add_attempt put_attempt
  upsert_multi_on-Refines arg i h none w w' find r same found e =
      let a = new_multi arg i h w.counters in
      Stored-Refines h arg.lot_id a w (add_attempt h a w) w' find (one_more w.counters) _ r
        (add_attempt-Stored h arg.lot_id a w found (refl, refl, refl)) same refl
        (ok-injective _ r (ap (λ x. x.0) e)) (ap (λ x. x.1) e)
  upsert_multi_on-Refines arg i h (some old) w w' find r same found e =
      let a = renewed arg.part_size w.counters.now old in
      let (row, moved) = else-run _ data_error _ _ r _ w' e in
      Stored-Refines h arg.lot_id a w (put_attempt h arg.lot_id a w) w' find (one_more w.counters) _
        r
        (put_attempt-Stored h arg.lot_id a old w found (
          renewed-IsPending h arg.lot_id arg.part_size w.counters.now old
            (find_pending-IsPending h arg.lot_id w.tables.attempts old found)))
        same refl row moved

  pub upsert_single_on-Refines :
      (arg : InsertSinglePartUploadParams) (i : SingleInput) (h : String)
      (old : Option ImageBlobUploadAttempt) (w w' : Work)
      (find : String → Uuid → Option ImageBlobUploadAttempt) (r : InsertSinglePartUploadRow)
      → ((h' : String) (l' : Uuid) → find_pending h' l' w.tables.attempts ≡ find h' l')
      → find_pending h arg.lot_id w.tables.attempts ≡ old
      → upsert_single_on f arg i h old w ≡ (ok r, w')
      → Refines w r w' (put_single f arg i h old (record { find = find; counters = w.counters }))
  unfolding upsert_single_on put_single add_attempt put_attempt
  upsert_single_on-Refines arg i h none w w' find r same found e =
      let a = new_single f arg i h w.counters in
      Stored-Refines h arg.lot_id a w (add_attempt h a w) w' find (one_more w.counters) _ r
        (add_attempt-Stored h arg.lot_id a w found (refl, refl, refl)) same refl
        (ok-injective _ r (ap (λ x. x.0) e)) (ap (λ x. x.1) e)
  upsert_single_on-Refines arg i h (some old) w w' find r same found e =
      let (row, moved) = else-run _ data_error _ _ r _ w' e in
      let a = rewritten old in
      Stored-Refines h arg.lot_id a w (put_attempt h arg.lot_id a w) w' find (one_more w.counters) _
        r
        (put_attempt-Stored h arg.lot_id a old w found
          (find_pending-IsPending h arg.lot_id w.tables.attempts old found))
        same refl row moved
