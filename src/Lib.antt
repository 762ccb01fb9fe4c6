-- ===== src/Lib.antt =====
-- The ioswarm agent: a worker that receives tasks from a coordinator, validates each transaction
-- at one of the levels L1 to L4, and for L4 keeps a copy of the chain's state in BoltDB. Beside it
-- stand commands for the agent's wallet, its service and its status.
--
-- The parts and their files. main (main.go; Agent.Main) starts a worker for each coordinator
-- (worker.go; Agent.Worker), which dials (client.go; Agent.Worker), registers, sets up L4 where it
-- is the first, and then receives batches of tasks and sends the results (main.go; Agent.Tasks and
-- Agent.Batch). A task (types.go; Types) goes through validateTask (validator.go; Validator), which
-- checks the signature and the sender, and for L3 and L4 executes the transaction (evm.go; Evm) on
-- an in-memory state (statedb.go; StateDb). For L4 that state falls back to the persistent store
-- (statestore.go; Store), whose accounts are decoded by account.go (Account) and whose storage
-- slots are found by the walk through a trie of mpt.go (Mpt). The store is filled by a snapshot
-- file (snapshot.go; Snapshot) and by the stream of diffs (statesync.go; StateSync). Of the
-- commands, fund.go, claim.go and deploy.go are Chain, service.go and status.go are Config, and
-- upgrade.go is Upgrade. llm.go, the proxy to language models that may run beside the workers, is
-- Llm. Wire is the loop over protobuf fields that mpt.go and account.go share, Errors the errors of
-- the state's part, Common the shared vocabulary, and Tests the concrete runs.
--
-- How the code corresponds. A Go function keeps its name in snake case. An operation with a pointer
-- receiver takes the state and returns the new one; an operation that may fail returns a Result or
-- an Option; a function with several steps has a helper for each, named in its comment. Byte slices
-- and strings are lists of bytes, Go maps are functions into Option, and a map that is ranged over
-- is the list of its pairs in the order of the visit. Numbers are natural, and the wrap of a fixed
-- width is written out. The texts of errors, reasons and notes are constructors. A loop that waits
-- for the coordinator is cut where it blocks: its place is a phase of a state, what reaches it is
-- an event, and it is a function of one step, run over a list of events. What the sync loop does to
-- the active store while tasks are validated is seen through the moment that each task has. The
-- counter of tasks is that of one worker. Functions of the package strings read texts as ASCII.
--
-- Parameters. protowire (Wire.Defs), BoltDB (Store.Driver), SHA-256 (Snapshot.Load), what the
-- agent calls of go-ethereum and uint256 (StateDb.State, Chain.Api), the EVM's interpreter
-- (Evm.Defs), the operating system (Config.Status) and the services of language models (Llm.Calls)
-- are records of functions. What is assumed of
-- them stands in HasProgress, HasRoundTrip and IsBolt, and Wire.Wide and Store.Memory are concrete
-- functions that meet it; nothing is assumed of the others. What gRPC, HTTP and files answer is an
-- argument or an event.
--
-- Fuel. The loop over a message has as many rounds as the message has bytes, which suffices since
-- each tag takes a byte. The loop over a snapshot's entries has one round more than there are
-- bytes. The walk through a trie takes its fuel as an argument, since the code's loop has no bound.
--
-- Not modelled: logging, printing, files and sockets, the constructors of library objects, the
-- heartbeats, whose answers are logged alone, amounts as floats, the commands for keys and rewards,
-- the texts of the service's templates, and the set-up dialogue of llm_setup.go.
pub mod Common
pub mod Wire
pub mod Errors
pub mod Mpt
pub mod Account
pub mod Store
pub mod Snapshot
pub mod Types
pub mod StateDb
pub mod Evm
pub mod Validator
pub mod StateSync
pub mod Agent
pub mod Upgrade
pub mod Config
pub mod Chain
pub mod Llm
pub mod Tests
