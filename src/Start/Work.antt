-- ===== src/Start/Work.antt =====
-- How `Run` ends on its listener: which calls it has made, and which of them failed.
use be_auction_lot.Prelude.{
  Option, none, some, List, [], ◌∷◌, ◌++◌, ◌≡◌, refl, ap, ◌∙◌, append_assoc, ◌⊎◌, inl, inr,
}
use be_auction_lot.Outcome.{Outcome, ok, err, panic}
use be_auction_lot.Strconv.{emit}
use be_auction_lot.ImageStore.Upload.Laws.{IsFailure}
use be_auction_lot.Start.{
  LotServer, ImageStore, Flow, goes, exits, Machine, Event, loaded_env, connected, pinged,
  loaded_config, made_validator, registered_lots, registered_images, served, closed, Boot, serve_on,
  serve_with, run, closing,
}
use be_auction_lot.Start.Cases.{opening, work, outcome_cases, at, RpcOf}

module _ (M : Machine) where
  -- A call of the work that ends it early.
  abbrev pub BreaksAt : Event → Type 0
  BreaksAt made_validator = (w : M.World) × ((M.new_validator w).0 ≡ panic)
  BreaksAt registered_lots =
      (s : LotServer M.Conn) × (w : M.World) × (r : Outcome (Unit {0})) × ((M.register_lots s w).0
        ≡ r)
      × IsFailure r
  BreaksAt registered_images =
      (s : Option (ImageStore M.Conn M.Client M.Presigner)) × (w : M.World) × (r : Outcome
        (Unit {0}))
      × ((M.register_images s w).0 ≡ r)
      × IsFailure r
  BreaksAt _ = ⊥

  -- All of the work is done, or what is left comes behind a call that has failed.
  abbrev pub GoesOn : List Event → List Event → Type 0
  GoesOn inside rest =
      (rest ≡ [])
      ⊎ ((before : List Event) × (e : Event) × (inside ≡ before ++ (e ∷ [])) × BreaksAt e)

  -- The work on a listener is done in order, up to its end or to a failure, and does not exit.
  abbrev pub Works : Flow (Unit {0}) × Boot M → Type 0
  Works x =
      (inside : List Event) × (rest : List Event) × (r : Outcome (Unit {0})) × (x.0 ≡ goes r)
      × (inside ++ rest ≡ work)
      × (x.1.log ≡ opening ++ inside)
      × GoesOn inside rest

  serve_with_cases :
      (rpc : RpcOf M) (l : M.Listener) (v : Option M.Validator) (w : M.World)
      → Works (serve_with M rpc l v (at M w (opening ++ (made_validator ∷ []))))
  unfolding serve_with
  serve_with_cases rpc l v w = elim (outcome_cases (M.register_lots rpc.lot_server w).0) [
    | inl (_, e) ↦
        let w' = (M.register_lots rpc.lot_server w).1 in
        elim (outcome_cases (M.register_images rpc.image_store w').0) [
          | inl (_, e') ↦ rw e (rw e' (work, [], _, refl, refl, refl, inl refl))
          | inr (inl (x, e')) ↦ rw e (
              rw e' (
                made_validator ∷ (registered_lots ∷ (registered_images ∷ [])),
                served ∷ [],
                err x,
                refl,
                refl,
                refl,
                inr (
                  made_validator ∷ (registered_lots ∷ []),
                  registered_images,
                  refl,
                  (rpc.image_store, w', err x, e', tt),
                ),
              ))
          | inr (inr e') ↦ rw e (
              rw e' (
                made_validator ∷ (registered_lots ∷ (registered_images ∷ [])),
                served ∷ [],
                panic,
                refl,
                refl,
                refl,
                inr (
                  made_validator ∷ (registered_lots ∷ []),
                  registered_images,
                  refl,
                  (rpc.image_store, w', panic, e', tt),
                ),
              ))
        ]
    | inr (inl (x, e)) ↦ rw e (
      made_validator ∷ (registered_lots ∷ []),
      registered_images ∷ (served ∷ []),
      err x,
      refl,
      refl,
      refl,
      inr (made_validator ∷ [], registered_lots, refl, (rpc.lot_server, w, err x, e, tt)),
    )
    | inr (inr e) ↦ rw e (
      made_validator ∷ (registered_lots ∷ []),
      registered_images ∷ (served ∷ []),
      panic,
      refl,
      refl,
      refl,
      inr (made_validator ∷ [], registered_lots, refl, (rpc.lot_server, w, panic, e, tt)),
    )
  ]

  serve_on_cases :
      (rpc : RpcOf M) (l : M.Listener) (w : M.World) → Works (serve_on M rpc l (at M w opening))
  unfolding serve_on
  serve_on_cases rpc l w = elim (outcome_cases (M.new_validator w).0) [
    | inl (v, e) ↦ rw e (serve_with_cases rpc l (some v) (M.new_validator w).1)
    | inr (inl (_, e)) ↦ rw e (serve_with_cases rpc l none (M.new_validator w).1)
    | inr (inr e) ↦ rw e (
      made_validator ∷ [],
      registered_lots ∷ (registered_images ∷ (served ∷ [])),
      panic,
      refl,
      refl,
      refl,
      inr ([], made_validator, refl, (w, e)),
    )
  ]

  -- What `Run` has done when the listener was asked for.
  abbrev pub Closes : Outcome M.Listener → Flow (Unit {0}) × Boot M → Type 0
  Closes listened_to x =
      (r : Outcome (Unit {0})) × (x.0 ≡ goes r)
      × ((IsFailure listened_to × (x.1.log ≡ opening))
          ⊎ ((inside : List Event) × (rest : List Event) × (inside ++ rest ≡ work)
              × GoesOn inside rest
              × (x.1.log ≡ opening ++ (inside ++ (closed ∷ [])))))

  closing_lem :
      (o : Outcome M.Listener) (l : M.Listener) (x : Flow (Unit {0})) (s : Boot M)
      → Works (x, s)
      → Closes o (closing M l x s)
  closing_lem o l (goes _) s (inside, rest, r, e, all, logged, on) = (
    r,
    e,
    inr (
      inside,
      rest,
      all,
      on,
      ap (λ log. log ++ (closed ∷ [])) logged ∙ append_assoc opening inside (closed ∷ []),
    ),
  )
  closing_lem o l (exits n) s (inside, rest, r, e, all, logged, on) = cc

  pub run_cases :
      (rpc : RpcOf M) (w : M.World)
      → Closes
          (M.listen "tcp" ":9002" w).0
          (run M 9002 rpc (at M w (loaded_env ∷ (connected ∷ (pinged ∷ (loaded_config ∷ []))))))
  unfolding run emit
  run_cases rpc w =
      let w' = (M.listen "tcp" ":9002" w).1 in
      elim (outcome_cases (M.listen "tcp" ":9002" w).0) [
        | inl (l, e) ↦
            let x = serve_on M rpc l (at M w' opening) in
            rw e (closing_lem (ok l) l x.0 x.1 (serve_on_cases rpc l w'))
        | inr (inl (x, e)) ↦ rw e (err x, refl, inl (tt, refl))
        | inr (inr e) ↦ rw e (panic, refl, inl (tt, refl))
      ]
