-- ===== src/Postgres/Contract.antt =====
-- What the two insert statements of file_insert.sql.go promise, one row at a time, on a map from the
-- hash and the lot to the attempt that is pending for them. The attempts and the rows are written out
-- here, column by column, and not with the functions of Upserts.
pub mod Laws
use be_auction_lot.Prelude.{
  ℕ, ◌+◌, ◌≤◌, ◌<◌, String, Bool, true, false, Option, none, some, ◌≡◌, ◌⊎◌,
}
use be_auction_lot.Prelude.Int.{ℤ, pos}
use be_auction_lot.Filestore.{
  Uuid, InsertAndValidateMultiPartUploadParams, InsertAndValidateMultiPartUploadRow,
  InsertSinglePartUploadParams, InsertSinglePartUploadRow,
}
use be_auction_lot.Postgres.{pending, ImageBlobUploadAttempt, Counters, Functions}
use be_auction_lot.Postgres.Attempts.{five_days, part_count, series_to}
use be_auction_lot.Postgres.Upserts.{MultiInput, SingleInput}
use be_auction_lot.Postgres.Abstract.{Pending, put, one_more}

-- The attempt may be resumed, or its time is over or was never set.
abbrev pub IsLive : ℕ → ImageBlobUploadAttempt → Type 0
IsLive now old = (t : ℕ) × (old.valid_until ≡ some t) × (now ≤ t)

abbrev pub IsOver : ℕ → ImageBlobUploadAttempt → Type 0
IsOver now old = (old.valid_until ≡ none) ⊎ ((t : ℕ) × (old.valid_until ≡ some t) × (t < now))

-- An attempt that is written without a change: a version counts the writes of an attempt with a
-- part count, and not those of one without.
abbrev pub IsRewritten : ImageBlobUploadAttempt → ImageBlobUploadAttempt → Type 0
IsRewritten old a =
    ((part_count old ≡ none) × (a ≡ old))
    ⊎ ((n : ℤ) × (part_count old ≡ some n) × (a ≡ record old { version = old.version + 1 }))

-- What an attempt that is over becomes.
abbrev pub restarted : ℤ → ℕ → ImageBlobUploadAttempt → ImageBlobUploadAttempt
restarted part_size now old = record old {
  part_size = some part_size;
  valid_until = some (now + five_days);
  version = old.version + 1;
}

-- The map behind a round: one entry set, and the sequences used once.
abbrev pub behind : Pending → String → Uuid → ImageBlobUploadAttempt → Pending
behind p h l a = record { find = put h l a p.find; counters = one_more p.counters }

-- The columns that a new multipart attempt has.
abbrev pub opened :
    InsertAndValidateMultiPartUploadParams → MultiInput → String → Counters → ImageBlobUploadAttempt
opened arg i h c = record {
  image_blob_upload_attempt_id = pos (c.attempt_ids + 1);
  sha256 = h;
  file_size = i.file_size;
  content_type = i.content_type;
  upload_type = arg.upload_type;
  upload_id = i.upload_id;
  part_size = some arg.part_size;
  lot_id = arg.lot_id;
  file_name = i.file_name;
  storage_key = i.storage_key;
  username = arg.username;
  upload_state = pending;
  version = 0;
  valid_until = some (c.now + five_days);
  verified = some false;
}

-- The row that tells of an attempt.
abbrev pub told : ImageBlobUploadAttempt → Bool → Bool → InsertAndValidateMultiPartUploadRow
told a inserted valid = record {
  part_size = a.part_size;
  image_blob_upload_attempt_id = a.image_blob_upload_attempt_id;
  sha256 = a.sha256;
  storage_key = a.storage_key;
  upload_id = a.upload_id;
  parts = series_to (part_count a);
  is_inserted = inserted;
  is_valid = valid;
}

-- The three ways in which a row of the multipart insert goes.
abbrev pub MultiPromise :
    InsertAndValidateMultiPartUploadParams
    → MultiInput
    → String
    → Pending
    → InsertAndValidateMultiPartUploadRow
    → Pending
    → Type 0
MultiPromise arg i h p r p' =
    ((p.find h arg.lot_id ≡ none)
      × (r ≡ told (opened arg i h p.counters) true false)
      × (p' ≡ behind p h arg.lot_id (opened arg i h p.counters)))
    ⊎ (((old a : ImageBlobUploadAttempt) × (p.find h arg.lot_id ≡ some old)
          × IsLive p.counters.now old
          × IsRewritten old a
          × (r ≡ told a false true)
          × (p' ≡ behind p h arg.lot_id a))
        ⊎ ((old : ImageBlobUploadAttempt) × (p.find h arg.lot_id ≡ some old)
            × IsOver p.counters.now old
            × (r ≡ told (restarted arg.part_size p.counters.now old) false false)
            × (p' ≡ behind p h arg.lot_id (restarted arg.part_size p.counters.now old))))

-- A round of the multipart insert: the hash in its canonical text is the key.
abbrev pub MultiRound :
    Functions
    → InsertAndValidateMultiPartUploadParams
    → Pending
    → MultiInput
    → InsertAndValidateMultiPartUploadRow
    → Pending
    → Type 0
MultiRound f arg p i r p' =
    (h : String) × (f.canonical i.sha256 ≡ some h) × MultiPromise arg i h p r p'

module _ (f : Functions) where
  -- The columns of a new single attempt; the column list leaves the others to their defaults.
  abbrev pub opened_single :
      InsertSinglePartUploadParams → SingleInput → String → Counters → ImageBlobUploadAttempt
  opened_single arg i h c = record {
    image_blob_upload_attempt_id = pos (c.attempt_ids + 1);
    sha256 = h;
    file_size = i.file_size;
    content_type = i.content_type;
    upload_type = arg.upload_type;
    upload_id = none;
    part_size = none;
    lot_id = arg.lot_id;
    file_name = i.file_name;
    storage_key = f.random_uuid c.uuids;
    username = arg.username;
    upload_state = pending;
    version = 0;
    valid_until = some (c.now + five_days);
    verified = some false;
  }

  abbrev pub told_single : ImageBlobUploadAttempt → Bool → InsertSinglePartUploadRow
  told_single a inserted = record {
    sha256 = a.sha256;
    storage_key = a.storage_key;
    is_inserted = inserted;
  }

  -- A round of the single insert. A conflict sets the storage key to itself, whatever the time.
  abbrev pub SinglePromise :
      InsertSinglePartUploadParams
      → SingleInput
      → String
      → Pending
      → InsertSinglePartUploadRow
      → Pending
      → Type 0
  SinglePromise arg i h p r p' =
      ((p.find h arg.lot_id ≡ none)
        × (r ≡ told_single (opened_single arg i h p.counters) true)
        × (p' ≡ behind p h arg.lot_id (opened_single arg i h p.counters)))
      ⊎ ((old a : ImageBlobUploadAttempt) × (p.find h arg.lot_id ≡ some old)
          × IsRewritten old a
          × (r ≡ told_single a false)
          × (p' ≡ behind p h arg.lot_id a))

  abbrev pub SingleRound :
      InsertSinglePartUploadParams
      → Pending
      → SingleInput
      → InsertSinglePartUploadRow
      → Pending
      → Type 0
  SingleRound arg p i r p' =
      (h : String) × (f.canonical i.sha256 ≡ some h) × SinglePromise arg i h p r p'
