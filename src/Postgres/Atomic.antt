-- ===== src/Postgres/Atomic.antt =====
-- What an upload leaves in the tables, over the connection of Session.
use be_auction_lot.Prelude.{String, List, [], ◌∷◌, ◌≡◌, refl, subst, All}
use be_auction_lot.Outcome.{Outcome, ok, err, panic}
use be_auction_lot.Action.{Action}
use be_auction_lot.Filestore.{Queries}
use be_auction_lot.ImageStore.Types.{UploadFile}
use be_auction_lot.ImageStore.Host.{
  Host, State, Call, begun, committed, rolled_back, inserted_identical, inserted_single,
  inserted_multi, read_item, created_multipart, listed_parts, completed_multipart, presigned_put,
  presigned_part, drew_random,
}
use be_auction_lot.ImageStore.Trace.{effect, replay, replay-append}
use be_auction_lot.ImageStore.Upload.{initiate_upload}
use be_auction_lot.ImageStore.Upload.Calls.{IsInside}
use be_auction_lot.ImageStore.Upload.Laws.{
  IsFailure, IsSession, refused, not_begun, given_up, ended, initiate_upload-IsSession,
}
use be_auction_lot.Postgres.{Tables, Work, Functions}
use be_auction_lot.Postgres.Session.{
  Transaction, idle, active, aborted, Db, start, settle_in, execute_on, Cloud, postgres_host,
  begin_on, commit_on, rollback_on,
}

abbrev IsOpen : Transaction → Type 0
IsOpen idle = ⊥
IsOpen _ = Unit

-- A transaction is open, and what is committed is `t`.
abbrev Holds : Tables → Db → Type 0
Holds t db = (db.committed ≡ t) × IsOpen db.transaction

settle_in-Holds :
    {A : Type 0} (t : Tables) (db : Db) (r : Outcome A) (w : Work)
    → db.committed ≡ t
    → Holds t (settle_in db (r, w)).1
settle_in-Holds t db (ok a) w e = (e, tt)
settle_in-Holds t db (err x) w e = (e, tt)
settle_in-Holds t db panic w e = (e, tt)

-- A statement inside a transaction leaves what is committed, whether it ends well or not.
execute_on-Holds :
    {A : Type 0} (m : Action Work A) (tr : Transaction) (t : Tables) (db : Db)
    → db.transaction ≡ tr
    → Holds t db
    → Holds t (execute_on m tr db).1
unfolding execute_on
execute_on-Holds m idle t db e (_, open') = absurd (subst IsOpen e open')
execute_on-Holds m (active u) t db e (same, _) =
    settle_in-Holds t db (m (start u db.counters)).0 (m (start u db.counters)).1 same
execute_on-Holds m aborted t db e h = h

module _ (f : Functions) (cloud : Cloud) where
  abbrev Pg : Host
  Pg = postgres_host f cloud

  effect-Holds :
      (t : Tables) (c : Call) (w : Pg.World) → IsInside c → Holds t w.0 → Holds t (effect Pg c w).0
  unfolding effect
  effect-Holds t (inserted_identical db arg) w i h = execute_on-Holds _ w.0.transaction t w.0 refl h
  effect-Holds t (inserted_single db arg) w i h = execute_on-Holds _ w.0.transaction t w.0 refl h
  effect-Holds t (inserted_multi db arg) w i h = execute_on-Holds _ w.0.transaction t w.0 refl h
  effect-Holds t (created_multipart key) w i h = h
  effect-Holds t (listed_parts bucket key id) w i h = h
  effect-Holds t (presigned_put key checksum) w i h = h
  effect-Holds t (presigned_part key part id) w i h = h
  effect-Holds t drew_random w i h = h
  effect-Holds t (read_item db id) w i h = absurd i
  effect-Holds t (completed_multipart bucket key id parts) w i h = absurd i
  effect-Holds t begun w i h = absurd i
  effect-Holds t committed w i h = absurd i
  effect-Holds t rolled_back w i h = absurd i

  replay-Holds :
      (t : Tables) (cs : List Call) (w : Pg.World)
      → All IsInside cs
      → Holds t w.0
      → Holds t (replay Pg cs w).0
  replay-Holds t [] w i h = h
  replay-Holds t (c ∷ cs) w (i, is) h =
      replay-Holds t cs (effect Pg c w) is (effect-Holds t c w i h)

  -- No transaction is left, and after a failure nothing has been committed.
  abbrev Settled : {A : Type 0} → Db → Outcome A → Db → Type 0
  Settled db r db' = (db'.transaction ≡ idle) × (IsFailure r → db'.committed ≡ db.committed)

  begin-Holds :
      (w : Pg.World) (tr : Transaction) → tr ≡ idle → Holds w.0.committed (begin_on tr w.0).1
  unfolding begin_on
  begin-Holds w idle e = (refl, tt)
  begin-Holds w (active u) e = cc
  begin-Holds w aborted e = cc

  begin-succeeds : (db : Db) (tr : Transaction) → tr ≡ idle → IsFailure (begin_on tr db).0 → ⊥
  unfolding begin_on
  begin-succeeds db idle e x = x
  begin-succeeds db (active u) e x = x
  begin-succeeds db aborted e x = cc

  -- The rollback of an open transaction.
  rollback-Settled :
      {A : Type 0} (old db : Db) (tr : Transaction) (r : Outcome A)
      → db.committed ≡ old.committed
      → IsOpen tr
      → Settled old r (rollback_on tr db).1
  unfolding rollback_on
  rollback-Settled old db idle r e o = absurd o
  rollback-Settled old db (active u) r e o = (refl, λ _. e)
  rollback-Settled old db aborted r e o = (refl, λ _. e)

  -- The commit of an open transaction, with the rollback behind it.
  commit-Settled :
      {A : Type 0} (old db : Db) (tr : Transaction) (r : Outcome A)
      → db.committed ≡ old.committed
      → IsOpen tr
      → (IsFailure r → IsFailure (commit_on tr db).0)
      → Settled old r (let d = (commit_on tr db).1 in (rollback_on d.transaction d).1)
  unfolding rollback_on commit_on
  commit-Settled old db idle r e o why = absurd o
  commit-Settled old db (active u) r e o why = (refl, λ x. absurd (why x))
  commit-Settled old db aborted r e o why = (refl, λ _. e)

  session-Settled :
      {A : Type 0} (w : Pg.World) (calls : List Call) (r : Outcome A)
      → w.0.transaction ≡ idle
      → IsSession Pg w r calls
      → Settled w.0 r (replay Pg calls w).0
  unfolding effect
  session-Settled w calls r free (refused e _) = rw e (free, λ _. refl)
  session-Settled w calls r free (not_begun e failed _) =
      absurd (begin-succeeds w.0 w.0.transaction free failed)
  session-Settled w calls r free (given_up inside good e _) =
      let worked = replay Pg inside (effect Pg begun w) in
      let (same, open') =
        replay-Holds w.0.committed inside (effect Pg begun w) good
          (begin-Holds w w.0.transaction free) in
      rw e (
        rw (replay-append Pg inside (rolled_back ∷ []) (effect Pg begun w))
          (rollback-Settled w.0 worked.0 worked.0.transaction r same open'))
  session-Settled w calls r free (ended inside good e why) =
      let worked = replay Pg inside (effect Pg begun w) in
      let (same, open') =
        replay-Holds w.0.committed inside (effect Pg begun w) good
          (begin-Holds w w.0.transaction free) in
      rw e (
        rw (replay-append Pg inside (committed ∷ (rolled_back ∷ [])) (effect Pg begun w))
          (commit-Settled w.0 worked.0 worked.0.transaction r same open' why))

  -- An upload on an idle connection leaves it idle. If it does not end well, whatever the reason and
  -- panics included, the committed tables are as they were.
  pub initiate_upload-atomic :
      (query : Queries) (files : List UploadFile) (lot_id : String) (s : State Pg)
      → s.world.0.transaction ≡ idle
      → ((initiate_upload Pg query files lot_id s).1.world.0.transaction ≡ idle)
        × (IsFailure (initiate_upload Pg query files lot_id s).0
            → (initiate_upload Pg query files lot_id s).1.world.0.committed ≡ s.world.0.committed)
  initiate_upload-atomic query files lot_id s free =
      let (calls, _, moved, session) = initiate_upload-IsSession Pg query files lot_id s in
      rw moved
        (session-Settled s.world calls (initiate_upload Pg query files lot_id s).0 free session)
