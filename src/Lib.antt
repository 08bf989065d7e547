-- ===== src/Lib.antt =====
-- Verification of SkyFlow, a platform that moves bulk data between clouds.
--
-- The control plane of a node scales the machines that forward data and computes the routes; the
-- client plugin splits a file into chunks, sends them and has the parts composed at the destination.
-- Files of this library and the code that each one models:
--   Base: shared names; Base.Text (Go strings as lists of bytes), Base.Dict (maps keyed by strings, as
--     association lists), Base.Int and Base.Word (integers, and int64 with its wrap-around),
--     Base.Floats (float64 as a parameter).
--   Queue: control-plane/util/queue.go, FixedQueue.
--   Telemetry: the records of control-plane/storage/vm-agg-diff.go and receive-info/receive-info.go.
--   Scaling: control-plane/scaling, scaling.go (state and configuration), auto-fsm.go (Volatility,
--     Retention, Calls, Trigger, Auto), manual-fsm.go (Manual) and the lock of scaling.go (Lock).
--   Routing: control-plane/routing, update-graph.go (Routing, Risk) and flow-control.go (Risk), with the
--     prices of control-plane/util/get-bw-price.go (Price). Graph, Connect and Linked are theorems. Shortest is
--     Dijkstra of shortest-algorithm.go, with the theorems on it below: Walks, Frontier, Optimal and
--     Rounds (the result is right), Fuel, Bounds and Ends (it ends). Choice is Routing of routing.go,
--     with the theorem in Choice.Least.
--   Envoy: control-plane/pkg/envoy-manager, the ports and addresses of the proxy (envoy-operate.go,
--     config-types.go), with Laws.
--   Chunk: client-plugin/util/util.go, chunk sizes (Chunk, Sizes), sizes as text (Bytes), part names
--     (Parts, Names, Order); client-plugin/upload/split/split.go, splitting a range (Split, Split.Tiles).
--   Transfer: client-plugin/upload/upload.go, client.go and proxy.go. The goroutines of UploadFunc share
--     one state (Transfer) and their steps interleave (Steps): the submit loops (Submit), the workers
--     (Worker), the timeout checker (Checker) and the event loop (Events); Returns has the results.
--     Safety and Stuck are theorems on runs, over Shape, Quiet and Unsent; Collects is about Checker.
--   Compose: client-plugin/upload/gcs/compose.go (Gcs) and s3/compose.go (S3), which make one object of
--     the parts. The bucket is a parameter, ObjectStore, with the laws IsLawful of any bucket and
--     IsReliable of one that is up; Memory is a bucket in memory that has them. The lemmas on the tree
--     of merges are in Names, Levels, Tree and Trees, on deleting in Cleanup, on the end in After and
--     Ends; Gcs.Whole, S3.Whole and Agree have the theorems.
--   ChunkServer: client-plugin/api/chunk-server.go, which receives and merges chunks on a machine, and
--     client-plugin/upload/remote/compose.go, which asks it to. Receives and Loses run both together;
--     Copies and Merges are about the merge on any disk, Fine on one that works.
--   LargeFile: client-plugin/api/large-file.go, a file that several machines send in shares (Shares),
--     and its composition by Compose.Gcs (Tasks, Doubles, Late).
--   Storage: control-plane/storage/vm-receive-file.go, the reports of the machines as files, and
--     vm-agg-diff.go, the averages of a node (Averages), which go into the Queue that Scaling reads;
--     control-plane/pkg/api/vm-receive.go, the handler that saves the reports (Receives). Names, Saved,
--     Loop, Latest and Posted lead to what Get finds, Samples and Links to the averages.
--   Probing: data-plane/probing/tcpprobe.go, the rounds of probes that a machine makes, with its workers
--     as a step relation (Rounds), and the latest results (Latest).
--
-- How state is modelled. A method that changes its receiver returns the new record. A tick of the
-- scaler reads the clock, the answers of the cloud provider, of SSH and of HTTP from a record
-- World, one reading for each place of the code, and returns the requests that it makes as a list
-- of effects, oldest first. Times and durations are integers in nanoseconds; the products and sums
-- of durations that the code takes on int64 wrap, while Add and Sub of Go's times do not saturate
-- here. float64 is a type parameter with its operations, so no theorem uses a law of floating point
-- unless it says so. Loops are structural recursions on lists, or on fuel: composing takes a round
-- for each name of a level, of which each takes one name at least, and a level for each part, of
-- which each leaves fewer; splitting takes a round per 64 MB, the least size of a chunk, and one
-- more, which reaches the end of the range; decimal notation has 20 digits, one more than an int
-- needs; the length of a word in bits takes 64 halvings; Dijkstra queues the start and each edge
-- once at most, so it has two rounds more than edges.
--
-- The names of chunks and reports are plain file names, in one directory; what a disk, a bucket or a
-- machine answers to a request is an argument.
--
-- Not modelled: logging; the timer goroutine that calls a tick; the clients of cloud providers and of
-- their storage, SSH and HTTP themselves; etcd and JSON; the HTTP handlers but those named above;
-- configuration files; the rest of the data plane, and the data proxy. Panics are modelled where a
-- result says so; those on the answer of AWS to the creation of a machine and on an Envoy configuration
-- that is nil are not, nor is an error of closing a merged file, which the code ignores.
mod Base
pub mod Queue
pub mod Telemetry
pub mod Storage
pub mod Probing
pub mod Scaling
pub mod Chunk
pub mod Transfer
pub mod Routing
pub mod Envoy
pub mod Compose
pub mod ChunkServer
pub mod LargeFile
