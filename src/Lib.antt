-- ===== src/Lib.antt =====
-- DocPulse: a service that extracts the fields of a JSON schema from documents. A tenant uploads a
-- document to the API, which stores it and creates a job; a worker claims the job, extracts the
-- text of the document, cuts it into chunks, asks a language model for the fields of each chunk,
-- merges the answers, completes the job, and fires the tenant's webhooks.
--
-- The files, by the code that they model:
--   Domain                  internal/domain/types.go: Job, Tenant, Chunk, Webhook and their enums
--   Extraction/Chunker      internal/extraction/chunker.go: Chunk, getOverlap, splitLongParagraph,
--                           splitParagraphs, splitSentences. The builder, the chunks and the number
--                           of the next chunk are the record `Progress`; `break` is `Flow.stopped`
--   Llm/Router              internal/llm/router.go: Extract, selectTier, callLLM, validateResponse,
--                           the prompts. A run returns the models that it called, too
--   Jobs/Merge              internal/jobs/worker.go: mergeResults
--   Jobs/Worker             internal/jobs/worker.go: processJob, one function per step, and the
--                           goroutine of Run (`run_job`), over the record `World` of the tables and
--                           the cache. Worker/Run has the loop of Run as a step relation,
--                           Worker/Script the statements that a run sends to the table jobs, and
--                           Worker/Threads the interleavings of the statements of many runs
--   Database/JobStore       internal/database/job_store.go over the table jobs. JobStore/Claims has
--                           the interleavings of the claims of several workers as a step relation
--   Database/TenantStore    internal/database/tenant_store.go over the table tenants, with the unique
--                           columns of migrations/001_initial_schema.sql. TenantStore/Creations
--                           has sequences of calls
--   Database/WebhookStore   internal/database/webhook_store.go over the table webhooks
--   Webhook/Deliverer       internal/webhook/deliverer.go: Deliver, sign
--   Middleware/Auth         internal/api/middleware/auth.go and internal/auth/apikey.go
--   Middleware/RateLimit    internal/api/middleware/ratelimit.go and RateIncr of
--                           internal/cache/cache.go
--   Middleware/Logging      internal/api/middleware/logging.go: the status that is logged
--   Cache                   Get and Set of internal/cache/cache.go
--   Api/Handlers            internal/api/handlers.go: every handler
--   Api/Encoding            what writeJSON of internal/api/handlers.go sends, by the tags of
--                           internal/domain/types.go
--   Api/Router              internal/api/router.go: `serve`, a request behind the middleware, over the
--                           record `Site` of all tables and counters
--   Api/Schema              internal/api/schema.go: validateSchema
--   Ingestion/Detector      internal/ingestion/detector.go: DetectFormat
--   Ingestion/Extractor     internal/ingestion/extractor.go: Extract and its helpers
--   Storage                 internal/storage/store.go: LocalStore over a table of files
--   Documents               the path of a document from HandleExtract through the store to the worker
--   Journey                 one job from HandleExtract through the runs of the workers to HandleGetJob
--   Config                  internal/config/config.go: Load and its readers
--   Cmd/Api, Cmd/Worker     cmd/api/main.go and cmd/worker/main.go
--   Cmd/Migrations          runMigrations of cmd/api/main.go
--   Cmd/Seed                seedDevTenant of cmd/api/main.go, and scripts/seed.go
--   Database/Connection     internal/database/db.go: Connect
--   Text, Json, Base        what the source uses of the packages strings, unicode, strconv, the
--                           encodings in base64 and hexadecimal, and encoding/json; maps, integers
--                           and `(T, error)`; shared lemmas
-- The children of a module are named for what they prove; Tests has runs on concrete inputs.
--
-- Strings of documents are lists of bytes, decoded as UTF-8 where the source ranges over runes; keys
-- and messages are texts. A map is an association list, in the order in which it is iterated. Times
-- are in nanoseconds since 1970 (seconds in the limiter), confidences in hundredths, costs in units
-- of 10^-8 dollars, in which the prices per token are whole; the source has floats for both. An id
-- is its number. No integer of the modelled code comes near the bounds of its type.
--
-- A table is the list of its rows in the order of insertion. Each operation on a database or on
-- Redis takes the error that the driver returns for it, if any, and such an operation changes
-- nothing; an increment that fails may have been counted in Redis all the same, which is left out.
-- Rows with one `created_at` are claimed and listed in a fixed order, which SQL leaves open.
-- PostgreSQL gives back a text of a JSONB column with its own white space and order of keys: this
-- is the parameter `jsonb`, which the schema and the result of a job go through. It keeps the
-- microseconds of a time, which is not modelled. Parameters stand for what is outside the source:
-- the decoder and the encoder of JSON (`Codec`), the letters that unicode.IsUpper accepts, fmt's
-- `%q`, the language model, pdftotext, pandoc and tesseract, the errors of the file system,
-- time.ParseDuration, SHA-256, HMAC, random bytes, what uuid.Parse accepts, and the ids that
-- uuid.New draws.
--
-- All loops are over lists, over the bytes of a text, or over a number of rounds that the source
-- fixes (`maxRetries`, five attempts of a delivery): the recursion is structural and there is no fuel.
--
-- Not modelled: log output, the serving of HTTP itself (how it ends is an argument), the static
-- files of internal/api/frontend.go, and the types of internal/domain/types.go that no code uses.
mod Base
pub mod Storage
pub mod Cmd
pub mod Config
pub mod Documents
pub mod Text
pub mod Domain
pub mod Json
pub mod Extraction
pub mod Database
pub mod Ingestion
pub mod Webhook
pub mod Middleware
pub mod Api
pub mod Llm
pub mod Cache
pub mod Jobs
pub mod Journey
