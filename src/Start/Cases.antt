-- ===== src/Start/Cases.antt =====
-- How each part of the start of the program ends, and with which calls in the log.
use be_auction_lot.Prelude.{List, [], ◌∷◌, ◌≡◌, refl, sym, subst, ◌⊎◌, inl, inr}
use be_auction_lot.AppError.{GoError}
use be_auction_lot.Outcome.{Outcome, ok, err, panic}
use be_auction_lot.ImageStore.Upload.Laws.{IsFailure}
use be_auction_lot.Start.{
  Flow, goes, exits, Rpc, Machine, Event, loaded_env, connected, pinged, loaded_config, listened,
  made_validator, registered_lots, registered_images, served, Boot, connect_to_db, create_rpc,
  new_image_store,
}

-- The calls before the server, and those that it makes in order.
abbrev pub opening : List Event
opening = loaded_env ∷ (connected ∷ (pinged ∷ (loaded_config ∷ (listened ":9002" ∷ []))))

abbrev pub work : List Event
work = made_validator ∷ (registered_lots ∷ (registered_images ∷ (served ∷ [])))

-- The process goes on or panics, without `os.Exit`.
abbrev pub Stays : {A : Type 0} → Flow A → Type 0
Stays (goes _) = Unit
Stays (exits _) = ⊥

-- The process exits with the status 1, or panics.
abbrev pub Quits : {A : Type 0} → Flow A → Type 0
Quits x = (x ≡ exits 1) ⊎ (x ≡ goes panic)

pub outcome_cases :
    {A : Type 0} (r : Outcome A)
    → ((a : A) × (r ≡ ok a)) ⊎ (((e : GoError) × (r ≡ err e)) ⊎ (r ≡ panic))
outcome_cases (ok a) = inl (a, refl)
outcome_cases (err e) = inr (inl (e, refl))
outcome_cases panic = inr (inr refl)

module _ (M : Machine) where
  abbrev pub at : M.World → List Event → Boot M
  at w log = record { world = w; log = log }

  abbrev pub RpcOf : Type 0
  RpcOf = Rpc M.Conn M.Client M.Presigner

  -- The world behind the connection and its ping.
  abbrev pub pinged_world : M.Conn → M.World → M.World
  pinged_world c w = (M.ping c (M.connect w).1).1

  -- The connection or its ping has failed, and that was the last call.
  abbrev pub NoDatabase : M.World → List Event → Type 0
  NoDatabase w log =
      (IsFailure (M.connect w).0 × (log ≡ loaded_env ∷ (connected ∷ [])))
      ⊎ ((c : M.Conn) × ((M.connect w).0 ≡ ok c)
          × IsFailure (M.ping c (M.connect w).1).0
          × (log ≡ loaded_env ∷ (connected ∷ (pinged ∷ []))))

  failed_ping :
      {w : M.World} (c : M.Conn) {r : Outcome (Unit {0})}
      → (M.ping c w).0 ≡ r
      → IsFailure r
      → IsFailure (M.ping c w).0
  failed_ping {w} c e h = subst IsFailure (sym e) h

  -- A connection is made and answers, or the process ends.
  pub connect_to_db_cases :
      (w : M.World)
      → let x = connect_to_db M (at w (loaded_env ∷ [])) in
        (Quits x.0 × NoDatabase w x.1.log)
        ⊎ ((c : M.Conn) × ((M.connect w).0 ≡ ok c)
            × (x ≡ (goes (ok c), at (pinged_world c w) (loaded_env ∷ (connected ∷ (pinged ∷ []))))))
  unfolding connect_to_db
  connect_to_db_cases w = elim (outcome_cases (M.connect w).0) [
    | inl (c, e) ↦ elim (outcome_cases (M.ping c (M.connect w).1).0) [
      | inl (_, e') ↦ rw e (rw e' (inr (c, refl, refl)))
      | inr (inl (x, e')) ↦ rw e (rw e' (inl (inl refl, inr (c, refl, failed_ping c e' tt, refl))))
      | inr (inr e') ↦ rw e (rw e' (inl (inr refl, inr (c, refl, failed_ping c e' tt, refl))))
    ]
    | inr (inl (_, e)) ↦ rw e (inl (inl refl, inl (tt, refl)))
    | inr (inr e) ↦ rw e (inl (inr refl, inl (tt, refl)))
  ]

  -- The cloud configuration has panicked, and that was the last call.
  abbrev pub NoConfig : M.World → List Event → Type 0
  NoConfig w log =
      (c : M.Conn) × ((M.connect w).0 ≡ ok c)
      × ((M.load_default_config (pinged_world c w)).0 ≡ panic)
      × (log ≡ loaded_env ∷ (connected ∷ (pinged ∷ (loaded_config ∷ []))))

  -- A connection and an image store, which may be nil, or the start ends before the listener.
  pub create_rpc_cases :
      (w : M.World)
      → let x = create_rpc M (at w (loaded_env ∷ [])) in
        (Quits x.0 × NoDatabase w x.1.log)
        ⊎ (((x.0 ≡ goes panic) × NoConfig w x.1.log)
            ⊎ ((rpc : RpcOf) × (w' : M.World) × (x ≡ (
              goes (ok rpc),
              at w' (loaded_env ∷ (connected ∷ (pinged ∷ (loaded_config ∷ [])))),
            ))))
  unfolding create_rpc new_image_store
  create_rpc_cases w = elim (connect_to_db_cases w) [
    | inl (inl e, logged) ↦ rw e (inl (inl refl, logged))
    | inl (inr e, logged) ↦ rw e (inl (inr refl, logged))
    | inr (c, found, e) ↦ elim (outcome_cases (M.load_default_config (pinged_world c w)).0) [
      | inl (config, e') ↦ rw e (rw e' (inr (inr (_, _, refl))))
      | inr (inl (_, e')) ↦ rw e (rw e' (inr (inr (_, _, refl))))
      | inr (inr e') ↦ rw e (rw e' (inr (inl (refl, (c, found, e', refl)))))
    ]
  ]
