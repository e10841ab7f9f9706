-- ===== src/Start/Laws.antt =====
-- Which calls the start of the program makes, which of them failed, and how it ends.
use be_auction_lot.Prelude.{List, [], ◌∷◌, ◌++◌, ◌≡◌}
use be_auction_lot.ImageStore.Upload.Laws.{IsFailure}
use be_auction_lot.Start.{Flow, Machine, Event, loaded_env, closed}
use be_auction_lot.Start.Cases.{opening, work, Stays, Quits, NoDatabase, NoConfig}
use be_auction_lot.Start.Work.{GoesOn}

module _ (M : Machine) where
  -- The start from a world, by its result and its calls.
  pub data IsStart (w : M.World) (r : Flow (Unit {0})) (calls : List Event) : Type 0 where
    no_env : IsFailure (M.load_env w).0 → calls ≡ loaded_env ∷ [] → Stays r → IsStart w r calls
    no_database : NoDatabase M (M.load_env w).1 calls → Quits r → IsStart w r calls
    no_config : NoConfig M (M.load_env w).1 calls → Stays r → IsStart w r calls
    no_listener :
        (w' : M.World)
        → IsFailure (M.listen "tcp" ":9002" w').0
        → calls ≡ opening
        → Stays r
        → IsStart w r calls
    ran :
        (inside rest : List Event)
        → inside ++ rest ≡ work
        → GoesOn M inside rest
        → calls ≡ opening ++ (inside ++ (closed ∷ []))
        → Stays r
        → IsStart w r calls
