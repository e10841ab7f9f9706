-- ===== src/Postgres/Lots/Laws.antt =====
-- What the creation of a lot leaves in the tables, on an idle connection and inside the open
-- transaction of an upload.
use be_auction_lot.Prelude.{
  String, false, some, [], ◌∷◌, ◌++◌, ◌≡◌, refl, sym, ap, subst, ◌∙◌, ◌⊎◌, inl, inr, Bool-cases,
  Option-cases,
}
use be_auction_lot.AppError.{GoError}
use be_auction_lot.Outcome.{Outcome, ok, err, panic}
use be_auction_lot.Filestore.{Uuid, Queries}
use be_auction_lot.ImageStore.Upload.Laws.{IsFailure}
use be_auction_lot.Lots.{Lot as LotMessage, CreateLotRequest, CreateLotResponse, CreateLotParams}
use be_auction_lot.Lots.Laws.{created, answer, inserted, create_lot_cases}
use be_auction_lot.Postgres.{Lot, Tables, Work, Functions}
use be_auction_lot.Postgres.Upserts.{has_lot}
use be_auction_lot.Postgres.Session.{
  Transaction, idle, active, aborted, Db, start, settle, settle_in, execute_on, rollback_on,
}
use be_auction_lot.Postgres.Lots.{
  varchar, varchar_or_null, add_lot, lot_of, insert_into_lots, query_create_lot, create_lot_on,
}

-- The row that the columns hold of the parameters, under an id that was not there.
abbrev pub IsStored : CreateLotParams → Tables → Lot → Type 0
IsStored arg t lot =
    (varchar 260 arg.title ≡ some lot.title)
    × (varchar 450 arg.description ≡ some lot.description)
    × (varchar_or_null 260 arg.category ≡ some lot.category)
    × (lot.bid_opening_price ≡ arg.bid_opening_price)
    × (has_lot lot.id t.lots ≡ false)

abbrev pub with_lot : Tables → Lot → Tables
with_lot t lot = record t { lots = t.lots ++ (lot ∷ []) }

-- A statement that fails, or that adds the row.
abbrev Inserts : CreateLotParams → Work → Outcome Uuid × Work → Type 0
Inserts arg w x =
    ((e : GoError) × (x.0 ≡ err e) × (x.1.tables ≡ w.tables))
    ⊎ ((lot : Lot) × IsStored arg w.tables lot
        × (x.0 ≡ ok lot.id)
        × (x.1.tables ≡ with_lot w.tables lot))

rolled_back_same : (tr : Transaction) (db : Db) → (rollback_on tr db).1.committed ≡ db.committed
unfolding rollback_on
rolled_back_same idle db = refl
rolled_back_same (active t) db = refl
rolled_back_same aborted db = refl

module _ (f : Functions) where
  insert_into_lots_cases :
      (arg : CreateLotParams) (w : Work) → Inserts arg w (insert_into_lots f arg w)
  unfolding insert_into_lots add_lot
  insert_into_lots_cases arg w = elim (Option-cases (varchar 260 arg.title)) [
    | inl e ↦ rw e (inl (_, refl, refl))
    | inr (title, e) ↦ elim (Option-cases (varchar 450 arg.description)) [
      | inl e' ↦ rw e (rw e' (inl (_, refl, refl)))
      | inr (description, e') ↦ elim (Option-cases (varchar_or_null 260 arg.category)) [
        | inl e'' ↦ rw e (rw e' (rw e'' (inl (_, refl, refl))))
        | inr (category, e'') ↦
            let lot = lot_of arg title description category (f.random_uuid w.counters.uuids) in
            rw e (
              rw e' (
                rw e'' (elim (Bool-cases (has_lot lot.id w.tables.lots)) [
                  | inl taken ↦ rw taken (inl (_, refl, refl))
                  | inr free ↦ rw free (inr (lot, (refl, refl, refl, refl, free), refl, refl))
                ])))
      ]
    ]
  ]

  -- The same through `Queries`, in a statement of its own.
  abbrev OnIdle : CreateLotParams → Db → Outcome Uuid × Db → Type 0
  OnIdle arg db x =
      (x.1.transaction ≡ idle)
      × ((IsFailure x.0 × (x.1.committed ≡ db.committed))
          ⊎ ((lot : Lot) × IsStored arg db.committed lot
              × (x.0 ≡ ok lot.id)
              × (x.1.committed ≡ with_lot db.committed lot)))

  idle_cases :
      (arg : CreateLotParams) (tr : Transaction) (db : Db)
      → db.transaction ≡ tr
      → tr ≡ idle
      → OnIdle arg db (execute_on (insert_into_lots f arg) tr db)
  unfolding execute_on
  idle_cases arg idle db e _ =
      let w = start db.committed db.counters in
      settled (insert_into_lots f arg w).0 (insert_into_lots f arg w).1
        (insert_into_lots_cases arg w)
    where
      settled :
          (r : Outcome Uuid) (w : Work)
          → Inserts arg (start db.committed db.counters) (r, w)
          → OnIdle arg db (settle db (r, w))
      settled r w (inl (x, e', _)) = rw e' (e, inl (tt, refl))
      settled r w (inr (lot, stored, e', tables)) = rw e' (e, inr (lot, stored, refl, tables))
  idle_cases arg (active t) db e e' = cc
  idle_cases arg aborted db e e' = cc

  -- Inside a transaction what is committed stays.
  abbrev InOpen : CreateLotParams → Tables → Db → Outcome Uuid × Db → Type 0
  InOpen arg t db x =
      (x.1.committed ≡ db.committed)
      × (IsFailure x.0
          ⊎ ((lot : Lot) × IsStored arg t lot
              × (x.0 ≡ ok lot.id)
              × (x.1.transaction ≡ active (with_lot t lot))))

  open_cases :
      (arg : CreateLotParams) (t : Tables) (db : Db)
      → InOpen arg t db (execute_on (insert_into_lots f arg) (active t) db)
  unfolding execute_on
  open_cases arg t db =
      let w = start t db.counters in
      settled (insert_into_lots f arg w).0 (insert_into_lots f arg w).1
        (insert_into_lots_cases arg w)
    where
      settled :
          (r : Outcome Uuid) (w : Work)
          → Inserts arg (start t db.counters) (r, w)
          → InOpen arg t db (settle_in db (r, w))
      settled r w (inl (x, e', _)) = rw e' (refl, inl tt)
      settled r w (inr (lot, stored, e', tables)) =
          rw e' (refl, inr (lot, stored, refl, ap active tables))

  module _ (validate : CreateLotRequest → GoError) (uuid_string : Uuid → String) (q : Queries) where
    -- The answer names the row of the request.
    abbrev pub Names : CreateLotRequest → Tables → Outcome CreateLotResponse → Lot → Type 0
    Names req t r lot =
        (msg : LotMessage) × (title : String) × (description : String) × (req.lot ≡ some msg)
        × (msg.lot_title ≡ some title)
        × (msg.description ≡ some description)
        × IsStored (inserted msg title description) t lot
        × (r ≡ ok (created (uuid_string lot.id)))

    abbrev Answer : Outcome Uuid → Outcome CreateLotResponse
    Answer = answer validate (query_create_lot f q) uuid_string

    failed_answer : (r : Outcome Uuid) → IsFailure r → IsFailure (Answer r)
    failed_answer (ok id) h = h
    failed_answer (err e) h = tt
    failed_answer panic h = tt

    -- On an idle connection the creation of a lot leaves the connection idle, and either fails and
    -- changes no table, or answers with the id of one row that is added behind the other lots and
    -- holds the fields of the request as its columns do, under an id that no lot had; no other table
    -- changes.
    pub create_lot-stores :
        (req : CreateLotRequest) (db : Db)
        → db.transaction ≡ idle
        → let x = create_lot_on f validate uuid_string q req db in
          (x.1.transaction ≡ idle)
          × ((IsFailure x.0 × (x.1.committed ≡ db.committed))
              ⊎ ((lot : Lot) × Names req db.committed x.0 lot
                  × (x.1.committed ≡ with_lot db.committed lot)))
    unfolding query_create_lot
    create_lot-stores req db free =
        elim (create_lot_cases validate (query_create_lot f q) uuid_string req db) [
          | inl (_, e) ↦ rw e (free, inl (tt, refl))
          | inr (_, inl (_, e)) ↦ rw e (free, inl (tt, refl))
          | inr (_, inr (msg, title, description, has_msg, has_title, has_text, e)) ↦
              let arg = inserted msg title description in
              let (rests, how) = idle_cases arg db.transaction db refl free in
              rw e (
                rests,
                elim how [
                  | inl (failed, same) ↦ inl (failed_answer _ failed, same)
                  | inr (lot, stored, answered, added) ↦ inr (
                    lot,
                    (
                      msg,
                      title,
                      description,
                      has_msg,
                      has_title,
                      has_text,
                      stored,
                      ap Answer answered,
                    ),
                    added,
                  )
                ],
              )
        ]

    -- A lot that is created while an upload has its transaction open on the connection is answered
    -- as created and stands in that transaction only: the committed tables are as they were, and
    -- still are when the upload rolls back.
    pub create_lot-overlaps :
        (req : CreateLotRequest) (t : Tables) (db : Db)
        → db.transaction ≡ active t
        → let x = create_lot_on f validate uuid_string q req db in
          (x.1.committed ≡ db.committed)
          × (IsFailure x.0
              ⊎ ((lot : Lot) × Names req t x.0 lot
                  × (x.1.transaction ≡ active (with_lot t lot))
                  × ((rollback_on x.1.transaction x.1).1.committed ≡ db.committed)))
    unfolding query_create_lot
    create_lot-overlaps req t db busy =
        elim (create_lot_cases validate (query_create_lot f q) uuid_string req db) [
          | inl (_, e) ↦ rw e (refl, inl tt)
          | inr (_, inl (_, e)) ↦ rw e (refl, inl tt)
          | inr (_, inr (msg, title, description, has_msg, has_title, has_text, e)) ↦
              let arg = inserted msg title description in
              let (same, how) =
                subst (λ tr. InOpen arg t db (execute_on (insert_into_lots f arg) tr db)) (sym busy)
                  (open_cases arg t db) in
              rw e (
                same,
                elim how [
                  | inl failed ↦ inl (failed_answer _ failed)
                  | inr (lot, stored, answered, opened) ↦ inr (
                    lot,
                    (
                      msg,
                      title,
                      description,
                      has_msg,
                      has_title,
                      has_text,
                      stored,
                      ap Answer answered,
                    ),
                    opened,
                    rolled_back_same _ _ ∙ same,
                  )
                ],
              )
        ]
