-- ===== src/Lib.antt =====
-- immich-go-server: a photo server whose library is spread over the disks of several nodes. Each node
-- keeps a database of what it knows (internal/store), tells its peers (internal/clusterapi,
-- internal/cluster) and carries out tasks (internal/worker); one elected node plans where directories
-- and replicas should go (internal/coordinator, internal/balancer), under limits on free space
-- (internal/space); the bytes move by a resumable copy (internal/migration, internal/migrationexec).
--
-- The files and the code that they model:
--   Model, Config, Messages   internal/model/types.go, internal/config/config.go, and the messages of
--                             internal/clusterapi/clusterapi.go (Task, DiskState, StatePayload)
--   Claim                     internal/claim/claim.go
--   Space                     internal/space/space.go
--   Balancer                  internal/balancer/balancer.go: PlanMigration, SelectReplicaTarget
--   Migration                 internal/migration/migration.go: Manifest, ComputeResume, AllCopied, …
--   Executor                  internal/migrationexec/executor.go: Start, CopyFile, Run (Executor.antt),
--                             Finish, Rollback (Executor/Ending)
--   Store                     internal/store/store.go: each table in a child, named for it
--   Release                   releaseSource of internal/worker/worker.go, and handleReleaseSource of
--                             internal/clusterapi/clusterapi.go
--   Host, World               a node with its database and its files, and a node among its peers
--   Worker                    internal/worker/worker.go: copyAssets (Worker.antt), RunOnce, runMigration,
--                             runReplica, releaseSource, rehost (Worker/Tasks); Worker/Delivery says what
--                             a copy leaves behind; the calls of peers, from
--                             internal/cluster/federation.go, are in World/Client
--   Federation                internal/cluster/federation.go: FetchState, Federation.Run, GlobalRepo
--   Drive                     internal/diskid/diskid.go, and claimDisk of cmd/server/main.go
--   Server                    internal/server/server.go: Federate, NodeLocator, GlobalRepository; the
--                             scheduling of makeTick in cmd/server/main.go
--   Media                     internal/clusterapi/clusterapi.go: what clients upload (Media/Upload), load,
--                             delete and ask for
--   Ingest, Scanner, Eval     internal/ingest/ingest.go: the sidecars; internal/scanner/scanner.go;
--                             internal/eval/eval.go
--   Remote                    internal/migrationexec/remote.go: StatSource, OpenSource
--   Coordinator               internal/coordinator/coordinator.go: RunBalancingCycle
--   Api                       internal/clusterapi/clusterapi.go: the handlers for peers, parseByteRange;
--                             handleBlob and internal/clusterapi/blobfs.go (Api/Blob),
--                             handleState (Api/State), SignHeaders and auth (Api/Access)
--   Cluster                   internal/cluster/cluster.go, nodeFromState of internal/cluster/federation.go
--   Crypto                    internal/crypto/hmac.go: VerifyRequest; VerifyStatePayload of
--                             internal/cluster/federation.go
--   Discovery                 internal/discovery/discovery.go: Registry, VerifyBeacon, HandlePacket
--   Prelude, Float64          what the parts share: lists, maps, texts, Go's integers, errors, and the
--                             arithmetic of float64 as an interface
--
-- How the code is read. A Go int64 or int is a ℤ whose operations wrap around (add64, sub64, mul64); a
-- float64 is a value of a parameter, a record of operations and of laws of its comparisons, which
-- fixed-point numbers meet. A map is an association list, a set a list without repetition, `ok=false`
-- is `none`. A method that changes its receiver is an action: it takes the state and returns a result
-- or an error, and the state after it.
--
-- Failures. Calls of the file system and of the database may fail: a job and a store hold the outcomes
-- of the calls to come, and a world whether its next calls of peers get there and are answered. A
-- failing write leaves a beginning of its chunk, a failing write of the manifest leaves the old file or
-- one that cannot be read.
--
-- Loops. The loop of CopyFile runs on fuel, one more than the bytes that are left, since every round
-- takes at least one; the theorem on Run says that it does not run out. All other loops are structural.
--
-- Not modelled. SQLite and its files, HTTP, JSON, UDP, hashing and the system's disks: these are
-- outside of the code or pure input and output; the signatures are parameters. Left out so far are the
-- walk of the ingest, the lists of the client's media API and the calls of the claim and the scan by a tick. In a world
-- of several nodes the calls of one node are answered by the handlers of its peers as if they had passed
-- `auth`, which is modelled by itself. Every call is answered or fails: the HTTP client has no timeout, so
-- a peer that never answers would hold up the caller, which the theorems on a round and a tick leave out.
pub mod Prelude
pub mod Float64
pub mod Config
pub mod Model
pub mod Messages
pub mod Claim
pub mod Space
pub mod Balancer
pub mod Migration
pub mod Executor
pub mod Store
pub mod Release
pub mod Cluster
pub mod Crypto
pub mod Api
pub mod Coordinator
pub mod Discovery
pub mod Drive
pub mod Eval
pub mod Federation
pub mod Host
pub mod Ingest
pub mod Media
pub mod Remote
pub mod Scanner
pub mod Server
pub mod Worker
pub mod World
