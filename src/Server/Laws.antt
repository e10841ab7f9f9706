-- ===== src/Server/Laws.antt =====
-- What a client of the server gets.
use be_auction_lot.Prelude.{
  Bool, true, false, Option, none, some, ◌≡◌, refl, ◌⊎◌, inl, inr, Bool-cases, Option-cases,
}
use be_auction_lot.AppError.{GoError, nil, internal}
use be_auction_lot.Valid.{
  WithDetails, Reply, is_nil, status_error_of, validate, refuse, error_response_interceptor,
}
use be_auction_lot.Valid.Laws.{HasStatus, error_response_interceptor_outcome, refuse-status}
use be_auction_lot.Server.{Handler, served}

-- The validator lets the request through.
abbrev pub IsAccepted : {Req Msg : Type 0} → (Req → Option Msg) → (Msg → GoError) → Req → Type 0
IsAccepted {Msg = Msg} as_message validator req =
    (msg : Msg) × (as_message req ≡ some msg) × (is_nil (validator msg) ≡ true)

module _ (with_details : WithDetails) (is_status : GoError → Bool) {W Req Msg Resp : Type 0}
    (as_message : Req → Option Msg) (validator : Msg → GoError) (handler : Handler W Req Resp) where
  served-unreadable :
      (req : Req) (w : W)
      → as_message req ≡ none
      → served with_details is_status as_message validator handler req w
        ≡ ((none, status_error_of internal "unexpected request type"), w)
  unfolding served validate
  served-unreadable req w e = rw (e, validate) refl

  served-refused :
      (req : Req) (w : W) (msg : Msg)
      → as_message req ≡ some msg
      → is_nil (validator msg) ≡ false
      → served with_details is_status as_message validator handler req w
        ≡ ((none, refuse with_details (validator msg)), w)
  unfolding served validate
  served-refused req w msg e bad = rw (e, validate) (rw bad refl)

  served-accepted :
      (req : Req) (w : W) (msg : Msg)
      → as_message req ≡ some msg
      → is_nil (validator msg) ≡ true
      → served with_details is_status as_message validator handler req w
        ≡ error_response_interceptor with_details is_status handler req w
  unfolding served validate
  served-accepted req w msg e fine = rw (e, validate) (rw fine refl)

  -- How a request may end.
  abbrev pub Ends : Req → W → Reply Resp × W → Type 0
  Ends req w x =
      ((x.1 ≡ w) × (x.0.0 ≡ none) × HasStatus is_status x.0.1)
      ⊎ (IsAccepted as_message validator req
          × (x.1 ≡ (handler req w).1)
          × (((is_nil (handler req w).0.1 ≡ true) × (x.0 ≡ ((handler req w).0.0, nil)))
              ⊎ ((is_nil (handler req w).0.1 ≡ false)
                  × (x.0.0 ≡ none)
                  × HasStatus is_status x.0.1)))

  -- A request to the server ends in one of three ways: without a run of the handler, and the client
  -- gets a status and no response; or it is accepted, the handler runs once, and its response is
  -- passed on with no error; or it is accepted, the handler runs once and fails, and the client gets
  -- a status and no response.
  pub served_outcome :
      (req : Req) (w : W)
      → Ends req w (served with_details is_status as_message validator handler req w)
  served_outcome req w = elim (Option-cases (as_message req)) [
    | inl other ↦ rw (served-unreadable req w other) (inl (refl, refl, inl (_, refl)))
    | inr (msg, is_message) ↦ elim (Bool-cases (is_nil (validator msg))) [
      | inl fine ↦
          let (kept, how) =
            error_response_interceptor_outcome with_details is_status handler req w in
          rw (served-accepted req w msg is_message fine) (inr ((msg, is_message, fine), kept, how))
      | inr bad ↦
          rw (served-refused req w msg is_message bad)
            (inl (refl, refl, inl (refuse-status with_details (validator msg))))
    ]
  ]
