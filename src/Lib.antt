-- ===== src/Lib.antt =====
-- The auction lot service: image uploads to S3 with their bookkeeping in Postgres, the errors that
-- clients are told, and the interceptors around the handlers. Paths are from the repository's root.
--
-- - internal/imagestore: `GeneratePresignedUrl` (ImageStore/Service) translates a request
--   (ImageStore/Wire), `initiateUpload` (ImageStore/Upload) drops duplicates, opens a transaction,
--   skips images that Postgres knows (both splits in ImageStore/Batch), and `generateS3UploadUrl`
--   (ImageStore/Urls) sorts the files by size (ImageStore/Extract), inserts the attempts and presigns
--   an url for each small file and for each part of a large one (ImageStore/Parts).
--   `CompleteMultiPartUpload` checks that all parts are there and completes the upload
--   (ImageStore/Complete). The types are in ImageStore/Types, and typetranslate.go and the errors
--   that the handlers build in ImageStore/Failures.
-- - internal/apperror: the error values and constructors in AppError, and in AppError/Client the walk
--   over an error tree that collects what the client is told.
-- - internal/database: the constraints that have a message for the client in Database; the rows,
--   parameters and row loops of the generated queries in Filestore, and the queries in
--   ImageStore/Queries, and the enum columns in Filestore/Enums.
--   The SQL of the upload statements and the tables of internal/database/migrations are in Postgres:
--   the rows and the unique index in Postgres/Attempts, the two upserts in Postgres/Upserts, the
--   insert of known images in Postgres/Images, and in Postgres/Session the connection with its
--   transactions and the host that it makes of Postgres. Postgres/Abstract states the upserts as
--   steps of a map, and Postgres/Contract what a step promises, column by column. The insert of a
--   lot, and the handler over the connection, are in Postgres/Lots.
-- - internal/valid: both interceptors in Valid.
-- - cmd/api/main.go: the chain of the interceptors in Server; `main`, `Run` and `createRpc`, with
--   `ConnectToDB` of internal/database and the constructors of the services, in Start.
-- - internal/server: the handler `CreateLot` in Lots.
--
-- A Go call ends with a value, an error or a panic (Outcome); a nil pointer read is a panic, and a
-- field with presence an `Option`. Code with effects is an action on a state (Action) that holds the
-- world and a log of the calls that left the process. Postgres, S3, its presigner, package uuid, the
-- order of a range over a map and the sort of package slices are a record of functions
-- (ImageStore/Host), which the definitions take as a parameter; package grpc and protovalidate are
-- parameters of Valid. The function names are those of the source in snake case; a definition for a
-- part of a function is named in the comment or code around it. Loops are recursion on the list;
-- package strconv prints a number with a fuel above the number (Strconv), which is enough since each
-- digit divides it by ten. The `int32`, `int16` and `uint32` conversions wrap (Prelude/Int). Packages
-- errors, strconv, encoding/hex and encoding/base64 are modelled as documented.
--
-- The SQL is modelled by its documented meaning with these bounds: a `bytea` is its hex text, and
-- `canonical` is `encode` after `decode`; the casts to char(64) and varchar change nothing within the
-- validated lengths; rows are handled and returned in the order of the arrays; a division by a part
-- size of zero is null and not an error, since the part size is a constant; `interval '5 days'` is in
-- seconds; the program has one connection, and no other client writes to the tables. A row that is
-- to be inserted uses up an id also if it conflicts; a statement that fails before its rows are
-- inserted, as on a hash that cannot be decoded, uses up none for the row that it fails at. A trigger
-- that runs before an update sees a null for a generated column.
--
-- Not modelled: Postgres itself; the SQL of the queries that no handler calls;
-- `Error()` of an error, which only logging reads; expiry and signing options of the presigner;
-- contexts; what is printed; and the generated protobuf code.
--
-- Prelude holds what all modules share, Tests the data and host at which the theorems are tried.
pub mod Prelude
pub mod AppError
pub mod Database
pub mod Valid
pub mod Outcome
pub mod Action
pub mod Filestore
pub mod Strconv
pub mod Encoding
pub mod ImageStore
pub mod Postgres
pub mod Server
pub mod Start
pub mod Lots
pub mod Tests
