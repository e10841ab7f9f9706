-- ===== src/Postgres/Answers.antt =====
-- The hashes on the rows of the multipart insert, and what a client is told of its files.
use mathlib.Core.List.{Perm}
use be_auction_lot.Prelude.{
  String, Bool, true, Option, none, some, List, [], ◌∷◌, map, All, All-weaken, ◌≡◌, refl, sym, ap,
  ap₂, subst, ◌∙◌, arith, Bool-cases, inl, inr,
}
use be_auction_lot.Prelude.Int.{ℤ}
use be_auction_lot.AppError.{nil}
use be_auction_lot.Outcome.{Outcome, ok, err, panic, ok-injective}
use be_auction_lot.Action.{Action}
use be_auction_lot.Action.Rounds.{Rounds}
use be_auction_lot.Filestore.{
  Uuid, Queries, InsertAndValidateMultiPartUploadParams, InsertAndValidateMultiPartUploadRow,
}
use be_auction_lot.Filestore.Rows.{ResultSet, row, collect_rows}
use be_auction_lot.Filestore.Rows.Laws.{collect_rows_iff}
use be_auction_lot.ImageStore.Types.{UploadFile, UploadFileRequestResult}
use be_auction_lot.ImageStore.Host.{State}
use be_auction_lot.ImageStore.Batch.Hashes.{AllPass}
use be_auction_lot.ImageStore.Urls.Multi.{ReturnsHashes}
use be_auction_lot.ImageStore.Upload.{initiate_upload}
use be_auction_lot.ImageStore.Upload.Answers.{answered, RangesOnce, initiate_upload-answers}
use be_auction_lot.Postgres.{ImageBlobUploadAttempt, Work, Functions}
use be_auction_lot.Postgres.Attempts.{find_pending, renewed, is_still_valid}
use be_auction_lot.Postgres.Upserts.{
  MultiInput, rest_of, unnest_multi, multi_row, upsert_multi_uploads,
}
use be_auction_lot.Postgres.Index.{same_key, same_key_iff}
use be_auction_lot.Postgres.Abstract.{Pending, put, put_multi, MultiStep}
use be_auction_lot.Postgres.Refinement.{find_pending-IsPending}
use be_auction_lot.Postgres.Statements.{upsert_multi_uploads-steps}
use be_auction_lot.Postgres.Session.{
  Transaction, idle, active, aborted, Db, start, settle, settle_in, execute_on, rows_of, Cloud,
  postgres_host,
}

-- The map holds attempts under their own hashes.
abbrev Keyed : (String → Uuid → Option ImageBlobUploadAttempt) → Type 0
Keyed find = (h : String) (l : Uuid) (a : ImageBlobUploadAttempt) → find h l ≡ some a → a.sha256 ≡ h

renewed-hash : (z : ℤ) (now : _) (a : ImageBlobUploadAttempt) → (renewed z now a).sha256 ≡ a.sha256
unfolding renewed
renewed-hash z now a = elim (Bool-cases (is_still_valid now a.valid_until)) [
  | inl e ↦ rw e refl
  | inr e ↦ rw e refl
]

put-Keyed :
    (h : String) (l : Uuid) (a : ImageBlobUploadAttempt)
    (find : String → Uuid → Option ImageBlobUploadAttempt)
    → a.sha256 ≡ h
    → Keyed find
    → Keyed (put h l a find)
put-Keyed h l a find e k h' l' b found = elim (Bool-cases (same_key h l h' l')) [
  | inl hit ↦
      subst (λ q. q.sha256 ≡ h') {x = a} {y = b} (ground arith)
        (e ∙ ((same_key_iff h l h' l').0 hit).0)
  | inr miss ↦ k h' l' b (ground arith)
]

put_multi-hash :
    (arg : InsertAndValidateMultiPartUploadParams) (i : MultiInput) (h : String)
    (old : Option ImageBlobUploadAttempt) (p : Pending)
    → p.find h arg.lot_id ≡ old
    → Keyed p.find
    → ((put_multi arg i h old p).0.sha256 ≡ h) × Keyed (put_multi arg i h old p).1.find
unfolding put_multi multi_row
put_multi-hash arg i h none p found k = (refl, put-Keyed h arg.lot_id _ p.find refl k)
put_multi-hash arg i h (some old) p found k =
    let same = renewed-hash arg.part_size p.counters.now old ∙ k h arg.lot_id old found in
    (same, put-Keyed h arg.lot_id _ p.find same k)

module _ (f : Functions) where
  Rounds-hashes :
      (arg : InsertAndValidateMultiPartUploadParams) (is : List MultiInput) (p p' : Pending)
      (rows : List InsertAndValidateMultiPartUploadRow)
      → Rounds (MultiStep f arg) p is rows p'
      → Keyed p.find
      → All (λ i. f.canonical i.sha256 ≡ some i.sha256) is
      → map (λ r. r.sha256) rows ≡ map (λ i. i.sha256) is
  Rounds-hashes arg [] p p' [] e k c = refl
  Rounds-hashes arg [] p p' (r ∷ rs) e k c = absurd e
  Rounds-hashes arg (i ∷ is) p p' [] e k c = absurd e
  Rounds-hashes arg (i ∷ is) p p' (r ∷ rs) (m, (h, canon, done), more) k (c, cs) =
      let (same, k') = put_multi-hash arg i h (p.find h arg.lot_id) p refl k in
      let own : h ≡ i.sha256 = ground (arith, sym canon ∙ c) in
      ap₂ ◌∷◌ (ap (λ x. x.0.sha256) (sym done) ∙ (same ∙ own))
        (Rounds-hashes arg is m p' rs more (subst Keyed (ap (λ x. x.1.find) done) k') cs)

some-injective : {A : Type 0} (a b : A) → some a ≡ some b → a ≡ b
some-injective a b e = cc

unnested :
    (o : Option (List MultiInput)) (i : MultiInput) (inputs : List MultiInput)
    → elim o [ none ↦ none | some rest ↦ some (i ∷ rest) ] ≡ some inputs
    → (rest : List MultiInput) × (o ≡ some rest) × (i ∷ rest ≡ inputs)
unnested none i inputs e = cc
unnested (some rest) i inputs e = (rest, refl, some-injective (i ∷ rest) inputs e)

unnest_multi-hashes :
    (hs : List String) (zs : List ℤ) (cs us ns : List String) (ks : List Uuid)
    (inputs : List MultiInput)
    → unnest_multi hs zs cs us ns ks ≡ some inputs
    → map (λ i. i.sha256) inputs ≡ hs
unfolding unnest_multi
unnest_multi-hashes [] [] [] [] [] [] inputs e =
    ap (map (λ i. i.sha256)) (sym (some-injective [] inputs e))
unnest_multi-hashes (h ∷ hs) (z ∷ zs) (c ∷ cs) us ns (k ∷ ks) inputs e =
    let (rest, read, same) =
      unnested (unnest_multi hs zs cs (rest_of us) (rest_of ns) ks) _ inputs e in
    ap (map (λ i. i.sha256)) (sym same)
    ∙ ap (λ l. h ∷ l) (unnest_multi-hashes hs zs cs (rest_of us) (rest_of ns) ks rest read)
unnest_multi-hashes _ _ _ _ _ _ inputs e = cc

All-map :
    {A B : Type 0} (P : B → Type 0) (g : A → B) (xs : List A)
    → All P (map g xs)
    → All (λ x. P (g x)) xs
All-map P g [] h = tt
All-map P g (x ∷ xs) (p, h) = (p, All-map P g xs h)

settle-ok :
    {A : Type 0} (db : Db) (r : Outcome A) (w : Work) (a : A)
    → (settle db (r, w)).0 ≡ ok a
    → r ≡ ok a
settle-ok db (ok b) w a e = e
settle-ok db (err x) w a e = cc
settle-ok db panic w a e = cc

settle_in-ok :
    {A : Type 0} (db : Db) (r : Outcome A) (w : Work) (a : A)
    → (settle_in db (r, w)).0 ≡ ok a
    → r ≡ ok a
settle_in-ok db (ok b) w a e = e
settle_in-ok db (err x) w a e = cc
settle_in-ok db panic w a e = cc

-- A statement that ends well on the connection has ended well on some tables.
execute_on-ok :
    {A : Type 0} (m : Action Work A) (tr : Transaction) (db : Db) (a : A)
    → (execute_on m tr db).0 ≡ ok a
    → (w : Work) × ((m w).0 ≡ ok a)
unfolding execute_on
execute_on-ok m idle db a e =
    let w = start db.committed db.counters in (w, settle-ok db (m w).0 (m w).1 a e)
execute_on-ok m (active t) db a e =
    let w = start t db.counters in (w, settle_in-ok db (m w).0 (m w).1 a e)
execute_on-ok m aborted db a e = cc

-- The rows behind a result set of the connection.
rows_of-ok :
    {A : Type 0} (r : Outcome (List A)) (db : Db) (found : ResultSet A) (rows : List A)
    → (rows_of (r, db)).0 ≡ ok found
    → collect_rows found ≡ ok rows
    → r ≡ ok rows
rows_of-ok (ok xs) db found rows e collected =
    let same = ok-injective _ found e in
    ap ok (
      ok-injective xs rows (
        sym ((collect_rows_iff (record { scans = map row xs; rows_err = nil }) xs).1 (refl, refl))
        ∙ (ap collect_rows same ∙ collected)))
rows_of-ok (err x) db found rows e collected = cc
rows_of-ok panic db found rows e collected = cc

-- A statement on some tables answers with the hashes that it was sent, if they are canonical.
upsert_multi_uploads-hashes :
    (f : Functions) (arg : InsertAndValidateMultiPartUploadParams) (w : Work)
    (rows : List InsertAndValidateMultiPartUploadRow)
    → All (λ h. f.canonical h ≡ some h) arg.sha256s
    → (upsert_multi_uploads f arg w).0 ≡ ok rows
    → map (λ r. r.sha256) rows ≡ arg.sha256s
upsert_multi_uploads-hashes f arg w rows plain e =
    let p : Pending = record {
      find = λ h l. find_pending h l w.tables.attempts;
      counters = w.counters;
    } in
    let w' = (upsert_multi_uploads f arg w).1 in
    let (inputs, p', read, rounds, _, _) =
      upsert_multi_uploads-steps f arg w rows w' p ((λ h l. refl), refl) (ap (λ r. (r, w')) e) in
    let sent =
      unnest_multi-hashes arg.sha256s arg.file_sizes arg.content_types arg.upload_ids arg.file_names
        arg.storage_keys inputs read in
    Rounds-hashes f arg inputs p p' rows rounds
      (λ h l a found. (find_pending-IsPending h l w.tables.attempts a found).1)
      (All-map (λ h. f.canonical h ≡ some h) (λ i. i.sha256) inputs
        (subst (All (λ h. f.canonical h ≡ some h)) (sym sent) plain))
    ∙ sent

module _ (f : Functions) (cloud : Cloud) (test : String → Bool)
    (canonical : (h : String) → test h ≡ true → f.canonical h ≡ some h) where
  postgres_host-ReturnsHashes : ReturnsHashes (postgres_host f cloud) test
  postgres_host-ReturnsHashes db arg w found rows pass answered collected =
      let m = upsert_multi_uploads f arg in
      let (u, ended) = execute_on-ok m w.0.transaction w.0 rows (
        rows_of-ok (execute_on m w.0.transaction w.0).0 (execute_on m w.0.transaction w.0).1 found
          rows answered collected) in
      upsert_multi_uploads-hashes f arg u rows
        (All-weaken (λ h. test h ≡ true) (λ h. f.canonical h ≡ some h) canonical arg.sha256s pass)
        ended

  -- Over Postgres, with a range over a map that meets every entry once: an upload that ends well of
  -- files whose hashes are written as Postgres writes them lists every file of the batch exactly
  -- once: among the duplicates, among the files already uploaded, or among the presigned files.
  pub initiate_upload-answers_all :
      (query : Queries) (files : List UploadFile) (lot_id : String)
      (s : State (postgres_host f cloud)) (r : UploadFileRequestResult)
      → RangesOnce (postgres_host f cloud)
      → AllPass test files
      → (initiate_upload (postgres_host f cloud) query files lot_id s).0 ≡ ok r
      → Perm (answered r) files
  initiate_upload-answers_all query files lot_id s r ranges pass e =
      initiate_upload-answers (postgres_host f cloud) ranges test postgres_host-ReturnsHashes query
        files lot_id s r pass e
