-- ===== src/Postgres/Contract/Laws.antt =====
-- The insert statements of file_insert.sql.go keep the promises of Contract.
use be_auction_lot.Prelude.{
  ℕ, String, true, false, Option, none, some, List, [], ◌∷◌, ◌≡◌, inl, inr, refl, ap, subst, arith,
  Bool-cases, Option-cases,
}
use be_auction_lot.Outcome.{ok}
use be_auction_lot.Action.Rounds.{Rounds}
use be_auction_lot.Filestore.{
  InsertAndValidateMultiPartUploadParams, InsertAndValidateMultiPartUploadRow,
  InsertSinglePartUploadParams, InsertSinglePartUploadRow,
}
use be_auction_lot.Postgres.{ImageBlobUploadAttempt, Work, Functions}
use be_auction_lot.Postgres.Attempts.{part_count, is_still_valid, rewritten_version, renewed}
use be_auction_lot.Postgres.Upserts.{
  MultiInput, SingleInput, unnest_multi, unnest_single, multi_row, upsert_multi_uploads,
  upsert_single_uploads,
}
use be_auction_lot.Postgres.Index.{IsIndexed}
use be_auction_lot.Postgres.Abstract.{Pending, put_multi, MultiStep, put_single, SingleStep, Shows}
use be_auction_lot.Postgres.Statements.{upsert_multi_uploads-steps, upsert_single_uploads-steps}
use be_auction_lot.Postgres.Contract.{
  IsLive, IsOver, IsRewritten, MultiPromise, MultiRound, SinglePromise, SingleRound,
}

rewritten_version-IsRewritten :
    (old : ImageBlobUploadAttempt)
    → IsRewritten old (record old { version = rewritten_version old })
unfolding rewritten_version
rewritten_version-IsRewritten old = elim (Option-cases (part_count old)) [
  | inl e ↦ inl (e, ap (λ v. record old { version = v }) (rw (e, rewritten_version) refl))
  | inr (n, e) ↦ inr (n, e, ap (λ v. record old { version = v }) (rw (e, rewritten_version) refl))
]

is_still_valid-IsLive :
    (now : ℕ) (old : ImageBlobUploadAttempt)
    → is_still_valid now old.valid_until ≡ true
    → IsLive now old
is_still_valid-IsLive now old e = elim (Option-cases old.valid_until) [
  | inl n ↦ absurd (ground (arith, rw n at e))
  | inr (t, s) ↦ (t, s, ground (arith, rw s at e))
]

not_valid-IsOver :
    (now : ℕ) (old : ImageBlobUploadAttempt)
    → is_still_valid now old.valid_until ≡ false
    → IsOver now old
not_valid-IsOver now old e = elim (Option-cases old.valid_until) [
  | inl n ↦ inl n
  | inr (t, s) ↦ inr (t, s, ground (arith, rw s at e))
]

put_multi-promise :
    (arg : InsertAndValidateMultiPartUploadParams) (i : MultiInput) (h : String) (p : Pending)
    (o : Option ImageBlobUploadAttempt)
    → p.find h arg.lot_id ≡ o
    → MultiPromise arg i h p (put_multi arg i h o p).0 (put_multi arg i h o p).1
unfolding put_multi multi_row renewed
put_multi-promise arg i h p none found = inl (found, refl, refl)
put_multi-promise arg i h p (some old) found =
    let now = p.counters.now in
    elim (Bool-cases (is_still_valid now old.valid_until)) [
      | inl e ↦ inr (
          inl (
            old,
            record old { version = rewritten_version old },
            found,
            is_still_valid-IsLive now old e,
            rewritten_version-IsRewritten old,
            rw e refl,
            rw e refl,
          ))
      | inr e ↦ inr (inr (old, found, not_valid-IsOver now old e, rw e refl, rw e refl))
    ]

Rounds-map :
    {S A B : Type 0} (P Q : S → A → B → S → Type 0)
    → ((s : S) (x : A) (y : B) (t : S) → P s x y t → Q s x y t)
    → (s : S) (xs : List A) (ys : List B) (t : S) → Rounds P s xs ys t
    → Rounds Q s xs ys t
Rounds-map P Q g s [] [] t e = e
Rounds-map P Q g s [] (y ∷ ys) t e = absurd e
Rounds-map P Q g s (x ∷ xs) [] t e = absurd e
Rounds-map P Q g s (x ∷ xs) (y ∷ ys) t (m, r, more) =
    (m, g s x y m r, Rounds-map P Q g m xs ys t more)

module _ (f : Functions) where
  put_single-promise :
      (arg : InsertSinglePartUploadParams) (i : SingleInput) (h : String) (p : Pending)
      (o : Option ImageBlobUploadAttempt)
      → p.find h arg.lot_id ≡ o
      → SinglePromise f arg i h p (put_single f arg i h o p).0 (put_single f arg i h o p).1
  unfolding put_single
  put_single-promise arg i h p none found = inl (found, refl, refl)
  put_single-promise arg i h p (some old) found = inr (
    old,
    record old { version = rewritten_version old },
    found,
    rewritten_version-IsRewritten old,
    refl,
    refl,
  )

  MultiStep-round :
      (arg : InsertAndValidateMultiPartUploadParams) (p : Pending) (i : MultiInput)
      (r : InsertAndValidateMultiPartUploadRow) (p' : Pending)
      → MultiStep f arg p i r p'
      → MultiRound f arg p i r p'
  MultiStep-round arg p i r p' (h, canon, e) = (
    h,
    canon,
    subst (λ x. MultiPromise arg i h p x.0 x.1) e
        (put_multi-promise arg i h p (p.find h arg.lot_id) refl),
  )

  SingleStep-round :
      (arg : InsertSinglePartUploadParams) (p : Pending) (i : SingleInput)
      (r : InsertSinglePartUploadRow) (p' : Pending)
      → SingleStep f arg p i r p'
      → SingleRound f arg p i r p'
  SingleStep-round arg p i r p' (h, canon, e) = (
    h,
    canon,
    subst (λ x. SinglePromise f arg i h p x.0 x.1) e
        (put_single-promise arg i h p (p.find h arg.lot_id) refl),
  )

  -- The statement of `InsertAndValidateMultiPartUpload`, where it ends well, is one round on the map
  -- for each row of the arrays, in order, under the canonical text of the hash. A key without a
  -- pending attempt gets a new one with the columns of the row, which is told as inserted and not as
  -- valid. A key whose attempt is still valid keeps it, but for the version, and is told it as valid.
  -- A key whose attempt has expired, or never had a time, keeps it with the part size of the
  -- statement, five more days and the next version, and is told it as neither. Each round uses up
  -- one id. The table behind the statement shows the map behind the rounds, and its index is still
  -- unique.
  pub upsert_multi_uploads-refines :
      (arg : InsertAndValidateMultiPartUploadParams) (w : Work)
      (rows : List InsertAndValidateMultiPartUploadRow) (w' : Work) (p : Pending)
      → Shows w p
      → upsert_multi_uploads f arg w ≡ (ok rows, w')
      → (inputs : List MultiInput) × (p' : Pending) × (unnest_multi arg.sha256s arg.file_sizes
            arg.content_types arg.upload_ids arg.file_names arg.storage_keys
          ≡ some inputs)
        × Rounds (MultiRound f arg) p inputs rows p'
        × Shows w' p'
        × (IsIndexed w.tables.attempts → IsIndexed w'.tables.attempts)
  upsert_multi_uploads-refines arg w rows w' p shows e =
      let (inputs, p', read, steps, shows', index) =
        upsert_multi_uploads-steps f arg w rows w' p shows e in
      (
        inputs,
        p',
        read,
        Rounds-map (MultiStep f arg) (MultiRound f arg) (MultiStep-round arg) p inputs rows p'
            steps,
        shows',
        index,
      )

  -- The statement of `InsertSinglePartUpload`, where it ends well, is one round on the map for each
  -- row of the arrays, in order, under the canonical text of the hash. A key without a pending
  -- attempt gets a new one with the columns of the row, a random storage key and the defaults, and is
  -- told it as inserted. A key with one keeps it, but for the version, and is told it as not inserted.
  -- Each round uses up one id. The table behind the statement shows the map behind the rounds, and
  -- its index is still unique.
  pub upsert_single_uploads-refines :
      (arg : InsertSinglePartUploadParams) (w : Work) (rows : List InsertSinglePartUploadRow)
      (w' : Work) (p : Pending)
      → Shows w p
      → upsert_single_uploads f arg w ≡ (ok rows, w')
      → (inputs : List SingleInput) × (p' : Pending) × (unnest_single arg.sha256s arg.file_sizes
            arg.content_types arg.files_names
          ≡ some inputs)
        × Rounds (SingleRound f arg) p inputs rows p'
        × Shows w' p'
        × (IsIndexed w.tables.attempts → IsIndexed w'.tables.attempts)
  upsert_single_uploads-refines arg w rows w' p shows e =
      let (inputs, p', read, steps, shows', index) =
        upsert_single_uploads-steps f arg w rows w' p shows e in
      (
        inputs,
        p',
        read,
        Rounds-map (SingleStep f arg) (SingleRound f arg) (SingleStep-round arg) p inputs rows p'
            steps,
        shows',
        index,
      )
