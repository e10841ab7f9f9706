-- ===== src/Postgres/Abstract.antt =====
-- The upserts without the table, as functions on a map from the hash and the lot to the attempt that
-- is pending for them, and the counters.
use be_auction_lot.Prelude.{◌+◌, String, Option, none, some, ◌≡◌, if◌then◌else◌}
use be_auction_lot.Filestore.{
  Uuid, InsertAndValidateMultiPartUploadParams, InsertAndValidateMultiPartUploadRow,
  InsertSinglePartUploadParams, InsertSinglePartUploadRow,
}
use be_auction_lot.Postgres.{ImageBlobUploadAttempt, Counters, Work, Functions}
use be_auction_lot.Postgres.Attempts.{find_pending, rewritten, renewed}
use be_auction_lot.Postgres.Upserts.{
  MultiInput, SingleInput, new_multi, new_single, multi_row, single_row,
}
use be_auction_lot.Postgres.Index.{same_key}

pub record Pending : Type 0 where
  pub find : String → Uuid → Option ImageBlobUploadAttempt
  pub counters : Counters

-- The map with one entry set.
abbrev pub put :
    String
    → Uuid
    → ImageBlobUploadAttempt
    → (String → Uuid → Option ImageBlobUploadAttempt)
    → String
    → Uuid
    → Option ImageBlobUploadAttempt
put h l a find h' l' = if same_key h l h' l' then some a else find h' l'

abbrev pub one_more : Counters → Counters
one_more c = record c { attempt_ids = c.attempt_ids + 1; uuids = c.uuids + 1 }

-- A new attempt if there is none for the key, and otherwise the old one, renewed.
unfoldable pub put_multi :
    InsertAndValidateMultiPartUploadParams
    → MultiInput
    → String
    → Option ImageBlobUploadAttempt
    → Pending
    → InsertAndValidateMultiPartUploadRow × Pending
put_multi arg i h none p =
    let a = new_multi arg i h p.counters in
    (
      multi_row p.counters.now none a,
      record { find = put h arg.lot_id a p.find; counters = one_more p.counters },
    )
put_multi arg i h (some old) p =
    let a = renewed arg.part_size p.counters.now old in
    (
      multi_row p.counters.now (some old) a,
      record { find = put h arg.lot_id a p.find; counters = one_more p.counters },
    )

-- A step of the multipart upsert on the map: the hash in its canonical text is the key.
abbrev pub MultiStep :
    Functions
    → InsertAndValidateMultiPartUploadParams
    → Pending
    → MultiInput
    → InsertAndValidateMultiPartUploadRow
    → Pending
    → Type 0
MultiStep f arg p i r p' =
    (h : String) × (f.canonical i.sha256 ≡ some h)
    × (put_multi arg i h (p.find h arg.lot_id) p ≡ (r, p'))

unfoldable pub put_single :
    Functions
    → InsertSinglePartUploadParams
    → SingleInput
    → String
    → Option ImageBlobUploadAttempt
    → Pending
    → InsertSinglePartUploadRow × Pending
put_single f arg i h none p =
    let a = new_single f arg i h p.counters in
    (single_row none a, record { find = put h arg.lot_id a p.find; counters = one_more p.counters })
put_single f arg i h (some old) p =
    let a = rewritten old in
    (
      single_row (some old) a,
      record { find = put h arg.lot_id a p.find; counters = one_more p.counters },
    )

abbrev pub SingleStep :
    Functions
    → InsertSinglePartUploadParams
    → Pending
    → SingleInput
    → InsertSinglePartUploadRow
    → Pending
    → Type 0
SingleStep f arg p i r p' =
    (h : String) × (f.canonical i.sha256 ≡ some h)
    × (put_single f arg i h (p.find h arg.lot_id) p ≡ (r, p'))

-- The table in the order of its unique index, seen as the map.
abbrev pub Shows : Work → Pending → Type 0
Shows w p =
    ((h : String) (l : Uuid) → find_pending h l w.tables.attempts ≡ p.find h l)
    × (w.counters ≡ p.counters)
