-- ===== src/Postgres/Statements.antt =====
-- The two insert statements of file_insert.sql.go as wholes: their steps on the map of Abstract, and
-- the unique index.
use be_auction_lot.Prelude.{
  Option, none, some, List, [], ◌∷◌, ◌≡◌, refl, sym, ap, subst, ◌∙◌, Bool, inl, inr, Bool-cases,
  not, ◌&&◌,
}
use be_auction_lot.Outcome.{ok, ok-injective}
use be_auction_lot.Action.{Action, ◌>>◌, lift, return, for_each}
use be_auction_lot.Action.Rounds.{Rounds, Runs, >>=-run, for_each-Rounds}
use be_auction_lot.Filestore.{
  Uuid, InsertAndValidateMultiPartUploadParams, InsertAndValidateMultiPartUploadRow,
  InsertSinglePartUploadParams, InsertSinglePartUploadRow,
}
use be_auction_lot.Postgres.{Work, Functions}
use be_auction_lot.Postgres.Attempts.{find_pending}
use be_auction_lot.Postgres.Upserts.{
  MultiInput, SingleInput, unnest_multi, unnest_single, or_data_error, check_lot, has_lot,
  any_multi, any_single, upsert_multi, upsert_single, upsert_multi_uploads, upsert_single_uploads,
}
use be_auction_lot.Postgres.Index.{IsIndexed}
use be_auction_lot.Postgres.Abstract.{Pending, MultiStep, SingleStep, Shows, put_multi, put_single}
use be_auction_lot.Postgres.Refinement.{Refines, upsert_multi_on-Refines, upsert_single_on-Refines}

or_data_error-ok : {A : Type 0} (o : Option A) (a : A) → or_data_error o ≡ ok a → o ≡ some a
or_data_error-ok none a e = cc
or_data_error-ok (some b) a e = ap some (ok-injective b a e)

-- One step on the table, as a step of the map.
abbrev pub Simulates :
    {A B : Type 0} → (Pending → A → B → Pending → Type 0) → Work → A → B → Work → Pending → Type 0
Simulates R w x y w' p =
    (p' : Pending) × R p x y p'
    × Shows w' p'
    × (IsIndexed w.tables.attempts → IsIndexed w'.tables.attempts)

-- A loop of such steps.
Rounds-Simulates :
    {A B : Type 0} (g : A → Action Work B) (R : Pending → A → B → Pending → Type 0)
    → ((w : Work) (x : A) (y : B) (w' : Work) (p : Pending)
        → Shows w p
        → g x w ≡ (ok y, w')
        → Simulates R w x y w' p)
    → (xs : List A) (w : Work) (ys : List B) (w' : Work) (p : Pending) → Shows w p
    → Rounds (Runs g) w xs ys w'
    → Simulates (Rounds R) w xs ys w' p
Rounds-Simulates g R step [] w [] w' p shows e = (
  p,
  refl,
  subst (λ u. Shows u p) e shows,
  subst (λ u. IsIndexed w.tables.attempts → IsIndexed u.tables.attempts) e (λ x. x),
)
Rounds-Simulates g R step [] w (y ∷ ys) w' p shows e = absurd e
Rounds-Simulates g R step (x ∷ xs) w [] w' p shows e = absurd e
Rounds-Simulates g R step (x ∷ xs) w (y ∷ ys) w' p shows (m, e, more) =
    let (p₁, r, shows₁, index₁) = step w x y m p shows e in
    let (p₂, rs, shows₂, index₂) = Rounds-Simulates g R step xs m ys w' p₁ shows₁ more in
    (p₂, (p₁, r, rs), shows₂, λ i. index₂ (index₁ i))

-- The foreign key is checked, and nothing changes.
check_lot-same : (lot_id : Uuid) (inserted : Bool) (w : Work) → (check_lot lot_id inserted w).1 ≡ w
unfolding check_lot
check_lot-same lot_id inserted w =
    elim (Bool-cases (inserted && not (has_lot lot_id w.tables.lots))) [
      | inl e ↦ rw e refl
      | inr e ↦ rw e refl
    ]

check-run :
    {A : Type 0} (lot_id : Uuid) (inserted : Bool) (w : Work) (a r : A) (t : Work)
    → ◌>>◌ {B = A} (check_lot lot_id inserted) (return a) w ≡ (ok r, t)
    → (a ≡ r) × (w ≡ t)
check-run lot_id inserted w a r t e =
    let (_, _, run) = >>=-run (check_lot lot_id inserted) _ w r t e in
    (
      ok-injective a r (ap (λ x. x.0) run),
      sym (check_lot-same lot_id inserted w) ∙ ap (λ x. x.1) run,
    )

module _ (f : Functions) where
  pub upsert_multi-Simulates :
      (arg : InsertAndValidateMultiPartUploadParams) (w : Work) (i : MultiInput)
      (r : InsertAndValidateMultiPartUploadRow) (w' : Work) (p : Pending)
      → Shows w p
      → upsert_multi f arg i w ≡ (ok r, w')
      → Simulates (MultiStep f arg) w i r w' p
  unfolding upsert_multi
  upsert_multi-Simulates arg w i r w' p (same, counted) e =
      let (h, canon, run) = >>=-run (lift (or_data_error (f.canonical i.sha256))) _ w r w' e in
      let done : Refines w r w' (put_multi arg i h (p.find h arg.lot_id) p) =
        subst
          (λ c.
            Refines w r w'
              (put_multi arg i h (p.find h arg.lot_id) (record { find = p.find; counters = c })))
          counted
          (subst
            (λ o.
              Refines w r w'
                (put_multi arg i h o (record { find = p.find; counters = w.counters })))
            (same h arg.lot_id)
            (upsert_multi_on-Refines f arg i h (find_pending h arg.lot_id w.tables.attempts) w w'
              p.find r same refl run)) in
      let x = put_multi arg i h (p.find h arg.lot_id) p in
      (x.1, (h, or_data_error-ok _ h canon, ap (λ q. (q, x.1)) done.row), done.shows, done.index)

  -- The statement of `InsertAndValidateMultiPartUpload`, in steps on the map.
  pub upsert_multi_uploads-steps :
      (arg : InsertAndValidateMultiPartUploadParams) (w : Work)
      (rows : List InsertAndValidateMultiPartUploadRow) (w' : Work) (p : Pending)
      → Shows w p
      → upsert_multi_uploads f arg w ≡ (ok rows, w')
      → (inputs : List MultiInput) × (p' : Pending) × (unnest_multi arg.sha256s arg.file_sizes
            arg.content_types arg.upload_ids arg.file_names arg.storage_keys
          ≡ some inputs)
        × Rounds (MultiStep f arg) p inputs rows p'
        × Shows w' p'
        × (IsIndexed w.tables.attempts → IsIndexed w'.tables.attempts)
  unfolding upsert_multi_uploads
  upsert_multi_uploads-steps arg w rows w' p shows e =
      let (inputs, read, run) =
        >>=-run
          (lift (
            or_data_error (
              unnest_multi arg.sha256s arg.file_sizes arg.content_types arg.upload_ids
                arg.file_names arg.storage_keys)))
          _ w rows w' e in
      let (rows', looped, checked) =
        >>=-run (for_each (upsert_multi f arg) inputs) _ w rows w' run in
      let m = (for_each (upsert_multi f arg) inputs w).1 in
      let (same_rows, moved) = check-run arg.lot_id (any_multi f rows') m rows' rows w' checked in
      let (p', rounds, shows', index) =
        Rounds-Simulates (upsert_multi f arg) (MultiStep f arg) (upsert_multi-Simulates arg) inputs
          w rows' m p shows
          (for_each-Rounds (upsert_multi f arg) inputs w rows' m (ap (λ r. (r, m)) looped)) in
      (
        inputs,
        p',
        or_data_error-ok _ inputs read,
        subst (λ q. Rounds (MultiStep f arg) p inputs q p') same_rows rounds,
        subst (λ u. Shows u p') moved shows',
        subst (λ u. IsIndexed w.tables.attempts → IsIndexed u.tables.attempts) moved index,
      )

  upsert_single-Simulates :
      (arg : InsertSinglePartUploadParams) (w : Work) (i : SingleInput)
      (r : InsertSinglePartUploadRow) (w' : Work) (p : Pending)
      → Shows w p
      → upsert_single f arg i w ≡ (ok r, w')
      → Simulates (SingleStep f arg) w i r w' p
  unfolding upsert_single
  upsert_single-Simulates arg w i r w' p (same, counted) e =
      let (h, canon, run) = >>=-run (lift (or_data_error (f.canonical i.sha256))) _ w r w' e in
      let done : Refines w r w' (put_single f arg i h (p.find h arg.lot_id) p) =
        subst
          (λ c.
            Refines w r w'
              (put_single f arg i h (p.find h arg.lot_id) (record { find = p.find; counters = c })))
          counted
          (subst
            (λ o.
              Refines w r w'
                (put_single f arg i h o (record { find = p.find; counters = w.counters })))
            (same h arg.lot_id)
            (upsert_single_on-Refines f arg i h (find_pending h arg.lot_id w.tables.attempts) w w'
              p.find r same refl run)) in
      let x = put_single f arg i h (p.find h arg.lot_id) p in
      (x.1, (h, or_data_error-ok _ h canon, ap (λ q. (q, x.1)) done.row), done.shows, done.index)

  -- The statement of `InsertSinglePartUpload`, in steps on the map.
  pub upsert_single_uploads-steps :
      (arg : InsertSinglePartUploadParams) (w : Work) (rows : List InsertSinglePartUploadRow)
      (w' : Work) (p : Pending)
      → Shows w p
      → upsert_single_uploads f arg w ≡ (ok rows, w')
      → (inputs : List SingleInput) × (p' : Pending) × (unnest_single arg.sha256s arg.file_sizes
            arg.content_types arg.files_names
          ≡ some inputs)
        × Rounds (SingleStep f arg) p inputs rows p'
        × Shows w' p'
        × (IsIndexed w.tables.attempts → IsIndexed w'.tables.attempts)
  unfolding upsert_single_uploads
  upsert_single_uploads-steps arg w rows w' p shows e =
      let (inputs, read, run) =
        >>=-run
          (lift (
            or_data_error
              (unnest_single arg.sha256s arg.file_sizes arg.content_types arg.files_names)))
          _ w rows w' e in
      let (rows', looped, checked) =
        >>=-run (for_each (upsert_single f arg) inputs) _ w rows w' run in
      let m = (for_each (upsert_single f arg) inputs w).1 in
      let (same_rows, moved) = check-run arg.lot_id (any_single f rows') m rows' rows w' checked in
      let (p', rounds, shows', index) =
        Rounds-Simulates (upsert_single f arg) (SingleStep f arg) (upsert_single-Simulates arg)
          inputs w rows' m p shows
          (for_each-Rounds (upsert_single f arg) inputs w rows' m (ap (λ r. (r, m)) looped)) in
      (
        inputs,
        p',
        or_data_error-ok _ inputs read,
        subst (λ q. Rounds (SingleStep f arg) p inputs q p') same_rows rounds,
        subst (λ u. Shows u p') moved shows',
        subst (λ u. IsIndexed w.tables.attempts → IsIndexed u.tables.attempts) moved index,
      )
