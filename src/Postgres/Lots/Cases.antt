-- ===== src/Postgres/Lots/Cases.antt =====
-- The creation of a lot on the one connection of the program, in every state that an upload may have
-- left or made.
use be_auction_lot.Prelude.{String, ◌≡◌, refl, ◌⊎◌, inl, inr, subst, sym}
use be_auction_lot.AppError.{GoError}
use be_auction_lot.Filestore.{Uuid, Queries}
use be_auction_lot.ImageStore.Upload.Laws.{IsFailure}
use be_auction_lot.Lots.{CreateLotRequest}
use be_auction_lot.Lots.Laws.{answer, inserted, create_lot_cases}
use be_auction_lot.Postgres.{Lot, Tables, Functions}
use be_auction_lot.Postgres.Session.{
  Transaction, idle, active, aborted, Db, execute_on, rollback_on,
}
use be_auction_lot.Postgres.Lots.{insert_into_lots, query_create_lot, create_lot_on}
use be_auction_lot.Postgres.Lots.Laws.{Names, with_lot, create_lot-stores, create_lot-overlaps}

Transaction-cases :
    (tr : Transaction) → (tr ≡ idle) ⊎ (((t : Tables) × (tr ≡ active t)) ⊎ (tr ≡ aborted))
Transaction-cases idle = inl refl
Transaction-cases (active t) = inr (inl (t, refl))
Transaction-cases aborted = inr (inr refl)

module _ (f : Functions) (validate : CreateLotRequest → GoError) (uuid_string : Uuid → String)
    (q : Queries) where
  create_lot-aborted :
      (req : CreateLotRequest) (db : Db)
      → db.transaction ≡ aborted
      → let x = create_lot_on f validate uuid_string q req db in IsFailure x.0 × (x.1 ≡ db)
  unfolding query_create_lot execute_on
  create_lot-aborted req db spoilt =
      elim (create_lot_cases validate (query_create_lot f q) uuid_string req db) [
        | inl (_, e) ↦ rw e (tt, refl)
        | inr (_, inl (_, e)) ↦ rw e (tt, refl)
        | inr (_, inr (msg, title, description, _, _, _, e)) ↦
            let insert = insert_into_lots f (inserted msg title description) in
            rw e (
              subst
                (λ tr.
                  IsFailure
                    (answer validate (query_create_lot f q) uuid_string (execute_on insert tr db).0)
                  × ((execute_on insert tr db).1 ≡ db))
                (sym spoilt) (tt, refl))
      ]

  -- The creation of a lot by the state of the one connection. Idle: it stays idle, and the creation
  -- fails and no table changes, or it answers with the id of one row that is added behind the other
  -- lots and holds the fields of the request as its columns do, under an id that no lot had, and no
  -- other table changes. With a transaction open, which only an upload opens: the committed tables
  -- stay, and the creation fails, or it is answered as created although its row is added in that
  -- transaction only and is gone when the upload rolls back. With a spoilt transaction: the creation
  -- fails and nothing changes.
  pub create_lot_on_cases :
      (req : CreateLotRequest) (db : Db)
      → let x = create_lot_on f validate uuid_string q req db in
        ((db.transaction ≡ idle)
          × (x.1.transaction ≡ idle)
          × ((IsFailure x.0 × (x.1.committed ≡ db.committed))
              ⊎ ((lot : Lot) × Names f validate uuid_string q req db.committed x.0 lot
                  × (x.1.committed ≡ with_lot db.committed lot))))
        ⊎ (((t : Tables) × (db.transaction ≡ active t)
              × (x.1.committed ≡ db.committed)
              × (IsFailure x.0
                  ⊎ ((lot : Lot) × Names f validate uuid_string q req t x.0 lot
                      × (x.1.transaction ≡ active (with_lot t lot))
                      × ((rollback_on x.1.transaction x.1).1.committed ≡ db.committed))))
            ⊎ ((db.transaction ≡ aborted) × IsFailure x.0 × (x.1 ≡ db)))
  create_lot_on_cases req db = elim (Transaction-cases db.transaction) [
    | inl free ↦
        let (rests, how) = create_lot-stores f validate uuid_string q req db free in
        inl (free, rests, how)
    | inr (inl (t, busy)) ↦
        let (same, how) = create_lot-overlaps f validate uuid_string q req t db busy in
        inr (inl (t, busy, same, how))
    | inr (inr spoilt) ↦
        let (failed, same) = create_lot-aborted req db spoilt in inr (inr (spoilt, failed, same))
  ]
