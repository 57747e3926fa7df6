-- ===== src/Lib.antt =====
-- A verification library for imgli, a self-hosted image host written in Go.
--
-- The program and its parts. Uploads (internal/service/upload) turn bytes into two rows, a file
-- (the stored object, shared by all images with the same bytes on one surface) and an image (what
-- a user owns and a link names). The image service (internal/service/imagesvc) moves images to the
-- recycle bin and back, purges them, and moves them between the public and the private surface; it
-- hands objects whose last image went to the task queue (internal/task) for deletion. The direct
-- links (internal/handler/serve.go over internal/service/servesvc) pass one gate, consume view
-- limits, and meter the owner's monthly traffic (internal/service/bandwidth). User groups bound
-- what an upload may ask for; a limiter in memory (internal/handler/ratelimit.go) bounds how often.
--
-- Which file models what:
--   Common     shared names, tests on numbers, list functions, signed integers, results with errors
--   Model      the rows of internal/model/model.go
--   Table      tables as lists of rows, the model of the SQL statements, and their laws
--   Store      the image store and its transactions. Store/Uploads: commitInstant and the
--              transaction of Save; Store/Reuse: findReusableLiveImage; Store/Moderate:
--              inheritModerationFrom, inheritModerationByHash; Store/Trash: SoftDelete, Restore,
--              purgeOne, PurgePermanent, EmptyTrash, PurgeExpiredTrash, PurgeExpiredImages,
--              AdminPurge; Store/Lifecycle: SoftDeleteByGroupRetention, PurgeByGroupForceMaxAge,
--              RunCleanup, ApplyLifecycle, DeleteUserData; Store/Edit and Store/EditWrite: Update;
--              Store/Rehome: rehomeWithUpdates, resolveFileForSurface. Store/Invariant
--              is what ties the rows together, the files named Laws hold the lemmas on one
--              operation each, Store/Reach is the relation of every history.
--   Access     ApplyGroupAccess, checkGroupExpires, checkGroupMaxViews, groupCapSec,
--              validateGroupLifecycle
--   Auth       accounts: RegisterWithMeta, Login, sessions, passwords and the one-time tokens of
--              internal/service/auth, the invitation codes of internal/service/adminsvc, API tokens
--              (internal/service/apitoken); Auth/Phc: the format of a stored hash;
--              Auth/Invariant and Auth/Reach as for the store
--   Moderation Decide, RunPipelineWithErrorPolicy, PolicyFromConfig, BuildCheckersFromConfig and
--              ModerateTask (Moderation/Task) of internal/service/moderation
--   Migrate    StartMigrateJob, CancelMigrateJob, ResumeMigrateJob, persistJob and finishJob of
--              internal/service/storagesvc, and MigrateFiles (Migrate/Files)
--   Tasks      the task queue: claim, run, drainOnce and the requeueing; Tasks/Workers is the
--              step relation of several workers
--   Bandwidth  EffectiveUsed, Check, Add, SnapshotFor
--   Serve      the direct links: Find, Authorize, Lookup, ClaimView, MeterOwner, the handler
--              Original, the handler Thumbnail (Serve/Thumbnail), and HotlinkAllowed of
--              internal/service/stats (Serve/Hotlink)
--   Version    CompareSemver
--   Limiter    allow, AllowN and the sweeps of the rate limiter
-- How state is modelled. A transaction is a function from the store to an outcome, and an error
-- carries no store, which is the rollback. A conditional UPDATE is a function on the rows together
-- with whether it changed one. Times are numbers of nanoseconds; random keys, clocks, handlers of
-- tasks and other answers from outside are arguments; regular expressions, argon2 and sha256 are
-- parameters. A context is the number of its checks that still find it alive. Counters that the
-- database would let fall below 0 stop at 0. Histories of the store are sequences of committed
-- transactions in any order, one for each turn of a sweep, which may work on copies of rows read
-- before; what Update writes to an image is not among them. The limiter's clock stands still for a
-- call.
--
-- Fuel and bounds. unique_key tries five keys, as the source does. drain_once runs on fuel, of which
-- more than the budget of the queue is enough: at most three runs for each task that waits. Products
-- of a Go int are written with their 64-bit wrap.
--
-- Not modelled: HTTP, JSON and SQL dialects, the storage drivers, image codecs, mail, the web client
-- and the command line, all of them I/O or libraries; and, of the services, what the parts above do
-- not name: albums, the greater part of the administration, providers of moderation scores.
-- A hash is assumed to determine the length of its bytes.
pub mod Common
pub mod Model
pub mod Table
pub mod Store
pub mod Access
pub mod Moderation
pub mod Migrate
pub mod Auth
pub mod Tasks
pub mod Bandwidth
pub mod Serve
pub mod Limiter
pub mod Version
