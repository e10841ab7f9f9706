-- ===== src/Filestore/Enums/Laws.antt =====
-- Enum columns of models.go, written and scanned.
use be_auction_lot.Prelude.{String, Bool, true, false, ◌≡◌, refl}
use be_auction_lot.AppError.{nil}
use be_auction_lot.Filestore.Enums.{
  NullUploadAttemptState, scan_null_upload_attempt_state, value_null_upload_attempt_state,
}

-- A nullable upload attempt state that is written and scanned, into whatever was there, is the same
-- if it is valid, and the invalid zero value if not; the scan does not fail.
pub scan_null-value_null :
    (old : NullUploadAttemptState) (state : String) (valid : Bool)
    → scan_null_upload_attempt_state old
        (value_null_upload_attempt_state (record { upload_attempt_state = state; valid = valid }))
      ≡ (
        record { upload_attempt_state = elim valid [ false ↦ "" | true ↦ state ]; valid = valid },
        nil,
      )
unfolding scan_null_upload_attempt_state value_null_upload_attempt_state
scan_null-value_null old state true = refl
scan_null-value_null old state false = refl
