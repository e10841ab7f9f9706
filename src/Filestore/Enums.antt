-- ===== src/Filestore/Enums.antt =====
-- internal/database/filestore/models.go: the columns of the two enum types, which sqlc generated
-- twice over. A method with a pointer receiver returns the new value beside its error.
pub mod Laws
use be_auction_lot.Prelude.{String, ◌<>◌, Bool, true, false}
use be_auction_lot.AppError.{GoError, nil, plain}

-- A `driver.Value` as far as `Scan` tells its types apart: nil, bytes that spell a text, a text, or
-- another type, with its name.
pub data DriverValue : Type 0 where
  null : DriverValue
  bytes text : String → DriverValue
  other : String → DriverValue

-- The body of both `Scan` methods.
abbrev scan_enum : String → String → DriverValue → String × GoError
scan_enum name e (bytes s) = (s, nil)
scan_enum name e (text s) = (s, nil)
scan_enum name e (other t) = (e, plain ("unsupported scan type for " <> (name <> (": " <> t))))
scan_enum name e null = (e, plain ("unsupported scan type for " <> (name <> ": <nil>")))

unfoldable pub scan_upload_attempt_state : String → DriverValue → String × GoError
scan_upload_attempt_state e src = scan_enum "UploadAttemptState" e src

pub record NullUploadAttemptState : Type 0 where
  pub upload_attempt_state : String
  pub valid : Bool

unfoldable pub scan_null_upload_attempt_state :
    NullUploadAttemptState → DriverValue → NullUploadAttemptState × GoError
unfolding scan_upload_attempt_state
scan_null_upload_attempt_state ns null = (record { upload_attempt_state = ""; valid = false }, nil)
scan_null_upload_attempt_state ns value =
    let (e, err) = scan_upload_attempt_state ns.upload_attempt_state value in
    (record { upload_attempt_state = e; valid = true }, err)

unfoldable pub value_null_upload_attempt_state : NullUploadAttemptState → DriverValue
value_null_upload_attempt_state ns = elim ns.valid [
  | false ↦ null
  | true ↦ text ns.upload_attempt_state
]

unfoldable pub scan_upload_type : String → DriverValue → String × GoError
scan_upload_type e src = scan_enum "UploadType" e src

pub record NullUploadType : Type 0 where
  pub upload_type : String
  pub valid : Bool

unfoldable pub scan_null_upload_type : NullUploadType → DriverValue → NullUploadType × GoError
unfolding scan_upload_type
scan_null_upload_type ns null = (record { upload_type = ""; valid = false }, nil)
scan_null_upload_type ns value =
    let (e, err) = scan_upload_type ns.upload_type value in
    (record { upload_type = e; valid = true }, err)

unfoldable pub value_null_upload_type : NullUploadType → DriverValue
value_null_upload_type ns = elim ns.valid [ false ↦ null | true ↦ text ns.upload_type ]
