-- ===== src/Tests/Start.antt =====
-- The start of the program on a machine where every call answers, but the validator is not made.
use be_auction_lot.Prelude.{ℕ, ◌+◌, [], ◌∷◌, ◌≡◌, refl}
use be_auction_lot.AppError.{plain}
use be_auction_lot.Outcome.{ok, err}
use be_auction_lot.Strconv.{emit}
use be_auction_lot.Start.{
  goes, Machine, loaded_env, connected, pinged, loaded_config, listened, made_validator,
  registered_lots, registered_images, served, closed, main,
}

-- The world counts the calls.
abbrev machine : Machine
machine = record {
  World = ℕ;
  Conn = ℕ;
  Config = ℕ;
  Client = ℕ;
  Presigner = ℕ;
  Listener = ℕ;
  Validator = ℕ;
  load_env = λ w. (ok tt, w + 1);
  connect = λ w. (ok w, w + 1);
  ping = λ _ w. (ok tt, w + 1);
  load_default_config = λ w. (ok w, w + 1);
  new_from_config = λ c. c;
  new_presign_client = λ c. c;
  listen = λ _ _ w. (ok w, w + 1);
  close = λ _ w. w + 1;
  new_validator = λ w. (err (plain "no validator"), w + 1);
  register_lots = λ _ w. (ok tt, w + 1);
  register_images = λ _ w. (ok tt, w + 1);
  serve = λ _ _ w. (err (plain "stopped"), w + 1);
}

-- A validator that is not made does not stop the start.
main_runs : main machine (record { world = 0; log = [] }) ≡ (
  goes (ok tt),
  record {
    world = 10;
    log =
        loaded_env
        ∷ (connected
            ∷ (pinged
                ∷ (loaded_config
                    ∷ (listened ":9002"
                        ∷ (made_validator
                            ∷ (registered_lots
                                ∷ (registered_images ∷ (served ∷ (closed ∷ [])))))))));
  },
)
unfolding main emit
main_runs = refl
