-- ===== src/Start.antt =====
-- cmd/api/main.go, `ConnectToDB` of internal/database/database.go, and the constructors of the two
-- services. What packages godotenv, pgx, aws, net, protovalidate and grpc do is a parameter. The
-- environment that pgx and aws read and what is printed stay outside.
pub mod Cases
pub mod Work
pub mod Laws
use be_auction_lot.Prelude.{ℕ, String, ◌<>◌, Option, none, some, List, [], ◌∷◌, ◌++◌}
use be_auction_lot.Prelude.Int.{ℤ, pos}
use be_auction_lot.AppError.{GoError, wrapped}
use be_auction_lot.Outcome.{Outcome, ok, err, panic}
use be_auction_lot.Strconv.{itoa}
use be_auction_lot.Filestore.{Queries, conn, new}
use be_auction_lot.ImageStore.Types.{bucket_name}

-- How code ends that may leave the process by `os.Exit`.
pub data Flow (A : Type 0) : Type 0 where
  goes : Outcome A → Flow A
  exits : ℕ → Flow A

-- `LotServer`, `s3Storage` and `ImageStore`, over what a connection, a client and a presigner are.
pub record LotServer (Conn : Type 0) : Type 0 where
  pub db_storage_query : Queries
  pub connection : Conn

pub record S3Storage (Client Presigner : Type 0) : Type 0 where
  pub s3_client : Client
  pub presigner : Presigner
  pub bucket : String

pub record ImageStore (Conn Client Presigner : Type 0) : Type 0 where
  pub db_storage_query : Queries
  pub s3_storage : S3Storage Client Presigner
  pub connection : Conn

-- `Rpc`; a nil pointer to an image store is none.
pub record Rpc (Conn Client Presigner : Type 0) : Type 0 where
  pub lot_server : LotServer Conn
  pub image_store : Option (ImageStore Conn Client Presigner)

-- `grpcServer` with its option and its services; a nil validator is none.
pub record GrpcServer (Conn Client Presigner Validator : Type 0) : Type 0 where
  pub validator : Option Validator
  pub rpc : Rpc Conn Client Presigner

pub record Machine : Type 1 where
  pub World : Type 0
  pub Conn : Type 0
  pub Config : Type 0
  pub Client : Type 0
  pub Presigner : Type 0
  pub Listener : Type 0
  pub Validator : Type 0
  pub load_env : World → Outcome (Unit {0}) × World
  pub connect : World → Outcome Conn × World
  pub ping : Conn → World → Outcome (Unit {0}) × World
  pub load_default_config : World → Outcome Config × World
  pub new_from_config : Config → Client
  pub new_presign_client : Client → Presigner
  pub listen : String → String → World → Outcome Listener × World
  -- An error of it is dropped.
  pub close : Listener → World → World
  pub new_validator : World → Outcome Validator × World
  -- The registration of a service may panic.
  pub register_lots : LotServer Conn → World → Outcome (Unit {0}) × World
  pub register_images :
      Option (ImageStore Conn Client Presigner) → World → Outcome (Unit {0}) × World
  pub serve :
      GrpcServer Conn Client Presigner Validator → Listener → World → Outcome (Unit {0}) × World

pub data Event : Type 0 where
  loaded_env connected pinged loaded_config : Event
  listened : String → Event
  made_validator registered_lots registered_images served closed : Event

module _ (M : Machine) where
  pub record Boot : Type 0 where
    pub world : M.World
    pub log : List Event

  abbrev pub Step : Type 0 → Type 0
  Step A = Boot → Flow A × Boot

  abbrev pub continue_with : {A B : Type 0} → (A → Step B) → Flow A → Boot → Flow B × Boot
  continue_with f (goes (ok a)) s = f a s
  continue_with f (goes (err e)) s = (goes (err e), s)
  continue_with f (goes panic) s = (goes panic, s)
  continue_with f (exits n) s = (exits n, s)

  abbrev pub and_then : {A B : Type 0} → Step A → (A → Step B) → Step B
  and_then m f s = let (r, s') = m s in continue_with f r s'

  abbrev pub return : {A : Type 0} → A → Step A
  return a s = (goes (ok a), s)

  -- A call, and its line in the log.
  abbrev pub call : {A : Type 0} → Event → (M.World → Outcome A × M.World) → Step A
  call e f s = let (r, w) = f s.world in (goes r, record { world = w; log = s.log ++ (e ∷ []) })

  -- `if err != nil { fmt.Println(err) }`: what was to be made is nil.
  abbrev pub or_nil : {A : Type 0} → Flow A → Flow (Option A)
  or_nil (goes (ok a)) = goes (ok (some a))
  or_nil (goes (err e)) = goes (ok none)
  or_nil (goes panic) = goes panic
  or_nil (exits n) = exits n

  abbrev pub attempt : {A : Type 0} → Step A → Step (Option A)
  attempt m s = let (r, s') = m s in (or_nil r, s')

  -- `if err != nil { os.Exit(1) }`
  abbrev pub exit_on_err : {A : Type 0} → Flow A → Flow A
  exit_on_err (goes (ok a)) = goes (ok a)
  exit_on_err (goes (err e)) = exits 1
  exit_on_err (goes panic) = goes panic
  exit_on_err (exits n) = exits n

  abbrev pub or_exit : {A : Type 0} → Step A → Step A
  or_exit m s = let (r, s') = m s in (exit_on_err r, s')

  unfoldable pub connect_to_db : Step M.Conn
  connect_to_db =
      and_then (or_exit (call connected M.connect))
        λ c. and_then (or_exit (call pinged (M.ping c))) λ _. return c

  unfoldable pub new_lot_server : M.Conn → LotServer M.Conn
  unfolding new
  new_lot_server c = record { db_storage_query = new conn; connection = c }

  -- `fmt.Errorf("load aws config: %w", err)`
  abbrev pub config_failure : {A : Type 0} → Flow A → Flow A
  config_failure (goes (ok a)) = goes (ok a)
  config_failure (goes (err e)) = goes (err (wrapped "load aws config: " e ""))
  config_failure (goes panic) = goes panic
  config_failure (exits n) = exits n

  unfoldable pub new_s3_storage : String → Step (S3Storage M.Client M.Presigner)
  new_s3_storage name s =
      let (r, s') = call loaded_config M.load_default_config s in
      continue_with
        (λ sdk_config. return (record {
          s3_client = M.new_from_config sdk_config;
          presigner = M.new_presign_client (M.new_from_config sdk_config);
          bucket = name;
        }))
        (config_failure r) s'

  abbrev pub image_store_of :
      M.Conn
      → Option (S3Storage M.Client M.Presigner)
      → Option (ImageStore M.Conn M.Client M.Presigner)
  image_store_of c none = none
  image_store_of c (some storage) =
      some (record { db_storage_query = new conn; s3_storage = storage; connection = c })

  -- A failed configuration gives a nil pointer.
  unfoldable pub new_image_store : M.Conn → Step (Option (ImageStore M.Conn M.Client M.Presigner))
  unfolding new new_s3_storage
  new_image_store c =
      and_then (attempt (new_s3_storage bucket_name)) λ storage. return (image_store_of c storage)

  unfoldable pub create_rpc : Step (Rpc M.Conn M.Client M.Presigner)
  unfolding connect_to_db new_lot_server new_image_store
  create_rpc = and_then connect_to_db λ c.
      and_then (new_image_store c)
        λ images. return (record { lot_server = new_lot_server c; image_store = images })

  -- The services of the server, which then serves.
  unfoldable pub serve_with :
      Rpc M.Conn M.Client M.Presigner → M.Listener → Option M.Validator → Step (Unit {0})
  serve_with rpc listener validator =
      and_then (call registered_lots (M.register_lots rpc.lot_server)) λ _.
        and_then (call registered_images (M.register_images rpc.image_store))
          λ _. call served (M.serve (record { validator = validator; rpc = rpc }) listener)

  -- The part of `Run` behind the `defer`. An error of `protovalidate.New` is printed.
  unfoldable pub serve_on : Rpc M.Conn M.Client M.Presigner → M.Listener → Step (Unit {0})
  unfolding serve_with
  serve_on rpc listener =
      and_then (attempt (call made_validator M.new_validator)) (serve_with rpc listener)

  -- `defer listener.Close()`; `os.Exit` would skip it.
  abbrev pub closing : {A : Type 0} → M.Listener → Flow A → Boot → Flow A × Boot
  closing listener (goes r) s =
      (goes r, record { world = M.close listener s.world; log = s.log ++ (closed ∷ []) })
  closing listener (exits n) s = (exits n, s)

  unfoldable pub run : ℕ → Rpc M.Conn M.Client M.Presigner → Step (Unit {0})
  unfolding serve_on itoa
  run port rpc =
      let address = ":" <> itoa (pos port) in
      and_then (call (listened address) (M.listen "tcp" address))
        λ listener s. let (r, s') = serve_on rpc listener s in closing listener r s'

  -- `main` behind the environment.
  unfoldable pub start_server : Step (Unit {0})
  unfolding create_rpc run
  start_server = and_then create_rpc λ rpc. and_then (attempt (run 9002 rpc)) λ _. return tt

  abbrev pub start_if : Option (Unit {0}) → Step (Unit {0})
  start_if none = return tt
  start_if (some _) = start_server

  unfoldable pub main : Step (Unit {0})
  unfolding start_server
  main = and_then (attempt (call loaded_env M.load_env)) start_if
