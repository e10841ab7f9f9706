-- ===== src/Postgres/Invariant.antt =====
-- The unique index over the life of a connection, through every call of the host.
use be_auction_lot.Prelude.{
  Option, none, some, List, [], ◌∷◌, ◌≡◌, refl, sym, ap, subst, ◌∙◌, String, inl, inr, Bool-cases,
}
use be_auction_lot.Prelude.Int.{ℤ}
use be_auction_lot.Outcome.{Outcome, ok, err, panic}
use be_auction_lot.Action.{Action, lift, for_each}
use be_auction_lot.Action.Rounds.{Rounds, Runs, >>=-run, for_each-Rounds}
use be_auction_lot.Filestore.{
  Uuid, Queries, InsertIdenticalImageBlobsToLotImagesParams,
  InsertIdenticalImageBlobsToLotImagesRow,
}
use be_auction_lot.ImageStore.Types.{UploadFile}
use be_auction_lot.ImageStore.Host.{
  Host, State, Call, begun, committed, rolled_back, inserted_identical, inserted_single,
  inserted_multi, read_item, created_multipart, listed_parts, completed_multipart, presigned_put,
  presigned_part, drew_random,
}
use be_auction_lot.ImageStore.Trace.{effect, replay}
use be_auction_lot.ImageStore.Upload.{initiate_upload}
use be_auction_lot.ImageStore.Upload.Laws.{initiate_upload-IsSession}
use be_auction_lot.Postgres.{ImageBlob, Work, Functions}
use be_auction_lot.Postgres.Images.{
  find_blob, add_image, join_file, insert_known, insert_known_images, check_image_lot, concat,
  unnest_files,
}
use be_auction_lot.Postgres.Upserts.{
  or_data_error, has_lot, upsert_multi_uploads, upsert_single_uploads,
}
use be_auction_lot.Postgres.Attempts.{find_pending}
use be_auction_lot.Postgres.Index.{IsIndexed}
use be_auction_lot.Postgres.Statements.{upsert_multi_uploads-steps, upsert_single_uploads-steps}
use be_auction_lot.Postgres.Session.{
  Transaction, idle, active, aborted, Db, start, settle, settle_in, execute_on, Cloud,
  postgres_host, begin_on, commit_on, rollback_on, select_on,
}

-- Where it ends well, the statement keeps the index.
abbrev Keeps : {A : Type 0} → Action Work A → Type 0
Keeps {A = A} m =
    (w : Work) (a : A) (w' : Work)
    → m w ≡ (ok a, w')
    → IsIndexed w.tables.attempts
    → IsIndexed w'.tables.attempts

Rounds-Keeps :
    {A B : Type 0} (g : A → Action Work B)
    → ((x : A) → Keeps (g x))
    → (xs : List A) (w : Work) (ys : List B) (w' : Work) → Rounds (Runs g) w xs ys w'
    → IsIndexed w.tables.attempts
    → IsIndexed w'.tables.attempts
Rounds-Keeps g step [] w [] w' e i = subst (λ u. IsIndexed u.tables.attempts) e i
Rounds-Keeps g step [] w (y ∷ ys) w' e i = absurd e
Rounds-Keeps g step (x ∷ xs) w [] w' e i = absurd e
Rounds-Keeps g step (x ∷ xs) w (y ∷ ys) w' (m, e, more) i =
    Rounds-Keeps g step xs m ys w' more (step x w y m e i)

join_file-Keeps :
    (lot_id : Uuid) (file_name : String) (o : Option ImageBlob)
    → Keeps (join_file lot_id file_name o)
unfolding join_file add_image
join_file-Keeps lot_id file_name none w a w' e i =
    subst (λ u. IsIndexed u.tables.attempts) (ap (λ x. x.1) e) i
join_file-Keeps lot_id file_name (some b) w a w' e i =
    subst (λ u. IsIndexed u.tables.attempts) (ap (λ x. x.1) e) i

check_image_lot-same :
    (lot_id : Uuid) (rows : List InsertIdenticalImageBlobsToLotImagesRow) (w : Work)
    → (check_image_lot lot_id rows w).1 ≡ w
unfolding check_image_lot
check_image_lot-same lot_id [] w = refl
check_image_lot-same lot_id (r ∷ rs) w = elim (Bool-cases (has_lot lot_id w.tables.lots)) [
  | inl e ↦ rw e refl
  | inr e ↦ rw e refl
]

module _ (f : Functions) where
  insert_known-Keeps : (lot_id : Uuid) (x : String × String) → Keeps (insert_known f lot_id x)
  unfolding insert_known
  insert_known-Keeps lot_id (text, file_name) w a w' e i =
      let (h, _, run) = >>=-run (lift (or_data_error (f.canonical text))) _ w a w' e in
      join_file-Keeps lot_id file_name (find_blob h w.tables.blobs) w a w' run i

  insert_known_images-Keeps :
      (arg : InsertIdenticalImageBlobsToLotImagesParams) → Keeps (insert_known_images f arg)
  unfolding insert_known_images
  insert_known_images-Keeps arg w a w' e i =
      let (files, _, run) =
        >>=-run (lift (or_data_error (unnest_files arg.sha256s arg.file_names))) _ w a w' e in
      let (rows, looped, checked) =
        >>=-run (for_each (insert_known f arg.lot_id) files) _ w a w' run in
      let m = (for_each (insert_known f arg.lot_id) files w).1 in
      let (_, _, returned) = >>=-run (check_image_lot arg.lot_id (concat rows)) _ m a w' checked in
      subst (λ u. IsIndexed u.tables.attempts)
        (sym (check_image_lot-same arg.lot_id (concat rows) m) ∙ ap (λ x. x.1) returned)
        (Rounds-Keeps (insert_known f arg.lot_id) (insert_known-Keeps arg.lot_id) files w rows m
          (for_each-Rounds (insert_known f arg.lot_id) files w rows m (ap (λ r. (r, m)) looped)) i)

  upsert_multi_uploads-Keeps : (arg : _) → Keeps (upsert_multi_uploads f arg)
  upsert_multi_uploads-Keeps arg w a w' e =
      (upsert_multi_uploads-steps f arg w a w'
        (record { find = λ h l. find_pending h l w.tables.attempts; counters = w.counters })
        ((λ h l. refl), refl) e).5

  upsert_single_uploads-Keeps : (arg : _) → Keeps (upsert_single_uploads f arg)
  upsert_single_uploads-Keeps arg w a w' e =
      (upsert_single_uploads-steps f arg w a w'
        (record { find = λ h l. find_pending h l w.tables.attempts; counters = w.counters })
        ((λ h l. refl), refl) e).5

-- The index of the tables that an open transaction works on.
abbrev pub IsIndexedIn : Transaction → Type 0
IsIndexedIn idle = Unit
IsIndexedIn (active t) = IsIndexed t.attempts
IsIndexedIn aborted = Unit

abbrev pub HasIndex : Db → Type 0
HasIndex db = IsIndexed db.committed.attempts × IsIndexedIn db.transaction

settle-HasIndex :
    {A : Type 0} (db : Db) (r : Outcome A) (w : Work)
    → HasIndex db
    → ((a : A) → r ≡ ok a → IsIndexed w.tables.attempts)
    → HasIndex (settle db (r, w)).1
settle-HasIndex db (ok a) w (_, open') k = (k a refl, open')
settle-HasIndex db (err e) w h k = h
settle-HasIndex db panic w h k = h

settle_in-HasIndex :
    {A : Type 0} (db : Db) (r : Outcome A) (w : Work)
    → HasIndex db
    → ((a : A) → r ≡ ok a → IsIndexed w.tables.attempts)
    → HasIndex (settle_in db (r, w)).1
settle_in-HasIndex db (ok a) w (all, _) k = (all, k a refl)
settle_in-HasIndex db (err e) w (all, _) k = (all, tt)
settle_in-HasIndex db panic w (all, _) k = (all, tt)

execute_on-HasIndex :
    {A : Type 0} (m : Action Work A) (tr : Transaction) (db : Db)
    → Keeps m
    → db.transaction ≡ tr
    → HasIndex db
    → HasIndex (execute_on m tr db).1
unfolding execute_on
execute_on-HasIndex m idle db keeps e h =
    let x = m (start db.committed db.counters) in
    settle-HasIndex db x.0 x.1 h
      λ a ok_a. keeps (start db.committed db.counters) a x.1 (ap (λ r. (r, x.1)) ok_a) h.0
execute_on-HasIndex m (active t) db keeps e h =
    let x = m (start t db.counters) in
    settle_in-HasIndex db x.0 x.1 h λ a ok_a.
      keeps (start t db.counters) a x.1 (ap (λ r. (r, x.1)) ok_a) (subst IsIndexedIn e h.1)
execute_on-HasIndex m aborted db keeps e h = h

begin_on-HasIndex : (tr : Transaction) (db : Db) → HasIndex db → HasIndex (begin_on tr db).1
unfolding begin_on
begin_on-HasIndex idle db (all, _) = (all, all)
begin_on-HasIndex (active t) db h = h
begin_on-HasIndex aborted db h = h

commit_on-HasIndex :
    (tr : Transaction) (db : Db) → db.transaction ≡ tr → HasIndex db → HasIndex (commit_on tr db).1
unfolding commit_on
commit_on-HasIndex idle db e h = h
commit_on-HasIndex (active t) db e h = (subst IsIndexedIn e h.1, tt)
commit_on-HasIndex aborted db e (all, _) = (all, tt)

rollback_on-HasIndex : (tr : Transaction) (db : Db) → HasIndex db → HasIndex (rollback_on tr db).1
unfolding rollback_on
rollback_on-HasIndex idle db h = h
rollback_on-HasIndex (active t) db (all, _) = (all, tt)
rollback_on-HasIndex aborted db (all, _) = (all, tt)

select_on-HasIndex :
    (id : ℤ) (tr : Transaction) (db : Db) → HasIndex db → HasIndex (select_on id tr db).1
unfolding select_on
select_on-HasIndex id idle db h = h
select_on-HasIndex id (active t) db h = h
select_on-HasIndex id aborted db h = h

module _ (f : Functions) (cloud : Cloud) where
  abbrev Pg : Host
  Pg = postgres_host f cloud

  effect-HasIndex : (c : Call) (w : Pg.World) → HasIndex w.0 → HasIndex (effect Pg c w).0
  unfolding effect
  effect-HasIndex (inserted_identical db arg) w h =
      execute_on-HasIndex _ w.0.transaction w.0 (insert_known_images-Keeps f arg) refl h
  effect-HasIndex (inserted_single db arg) w h =
      execute_on-HasIndex _ w.0.transaction w.0 (upsert_single_uploads-Keeps f arg) refl h
  effect-HasIndex (inserted_multi db arg) w h =
      execute_on-HasIndex _ w.0.transaction w.0 (upsert_multi_uploads-Keeps f arg) refl h
  effect-HasIndex begun w h = begin_on-HasIndex w.0.transaction w.0 h
  effect-HasIndex committed w h = commit_on-HasIndex w.0.transaction w.0 refl h
  effect-HasIndex rolled_back w h = rollback_on-HasIndex w.0.transaction w.0 h
  effect-HasIndex (read_item db id) w h = select_on-HasIndex id w.0.transaction w.0 h
  effect-HasIndex (completed_multipart bucket key id parts) w h = h
  effect-HasIndex (created_multipart key) w h = h
  effect-HasIndex (listed_parts bucket key id) w h = h
  effect-HasIndex (presigned_put key checksum) w h = h
  effect-HasIndex (presigned_part key part id) w h = h
  effect-HasIndex drew_random w h = h

  replay-HasIndex : (cs : List Call) (w : Pg.World) → HasIndex w.0 → HasIndex (replay Pg cs w).0
  replay-HasIndex [] w h = h
  replay-HasIndex (c ∷ cs) w h = replay-HasIndex cs (effect Pg c w) (effect-HasIndex c w h)

  -- If no two pending attempts in the tables have the same hash and lot, then there are no two such
  -- attempts behind an upload, however it ends: neither in the committed tables nor in those of an
  -- open transaction.
  pub initiate_upload-HasIndex :
      (query : Queries) (files : List UploadFile) (lot_id : String) (s : State Pg)
      → HasIndex s.world.0
      → HasIndex (initiate_upload Pg query files lot_id s).1.world.0
  initiate_upload-HasIndex query files lot_id s h =
      let (calls, _, moved, _) = initiate_upload-IsSession Pg query files lot_id s in
      rw moved (replay-HasIndex calls s.world h)
