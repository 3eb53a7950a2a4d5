-- ===== src/Lib.antt =====
-- fillwire: the order executor of internal/exec, and the bookkeeping of the data lanes beside it.
--
-- The executor works one approved intent at a time. `Intent` fixes the bounds (intent.go), `State`
-- is what has happened to it, and `Apply` is the only function that changes a `State` (machine.go).
-- `decide` chooses the next record from the state, the book and the clock; `Executor.Tick` commits
-- it: the record is applied, written to the journal, and only then becomes the state and may reach
-- the gateway (executor.go, journal.go). Prices stand on the tick grid of KRX (tick.go), sizes stay
-- in the room of the order service E1 (exposure.go), and fills of the ledger are matched to the
-- children sent by their broker order numbers (ledger.go). The gateway of the executor is the client of
-- E1 (e1/client.go, e1/reads.go).
--
-- The book recording has a parser of raw frames (internal/book/frame.go), the verdicts on their
-- continuity (detect.go), the recorder that writes both as evidence (recorder.go, evidence.go), and
-- the replay of an evidence file, which finds the verdicts again (replay.go). Snapshots of a book are
-- checked on their own (internal/bookfeed/snapshot.go).
--
-- A fill notice goes from the decoder (internal/decode) into a durable queue on Redis
-- (internal/stream), and from there to the ledger (internal/sink), which answers for each fill whether it
-- holds it. They share counters (internal/decode/counters.go).
--
-- Beside them stand the schedule of the quote socket (internal/quote/session.go), its symbol list
-- (internal/quote/symbols.go), the limit on subscription declarations with the memory of refused
-- tokens (internal/quote/limits.go), and the count of repeated notices (internal/decode/duplicate.go).
--
-- Files, with the code that each models:
--   Prelude            library names, tests, lists, texts, int64 arithmetic with its wrap-around
--   Exec/Tick          internal/exec/tick.go; Grid has the theorems on the grid
--   Exec/Intent, Side  internal/exec/intent.go; Pattern is its regular expressions, Limits its bounds
--   Exec/State         internal/exec/machine.go: the types and the readers of a state
--   Exec/Machine       internal/exec/machine.go: Apply; its children have the theorems on
--                      the invariant, a send, an unresolved child and the history
--   Exec/Exposure      internal/exec/exposure.go
--   Exec/Decide, Key   internal/exec/machine.go: decide and the keys of the children
--   Exec/Journal       internal/exec/journal.go; Replay and Valid are on its replay
--   Exec/Executor      internal/exec/executor.go; Calls runs its calls, Durable and Announced are
--                      on its journal and what it sends
--   Exec/Ledger        internal/exec/ledger.go
--   Exec/E1            internal/exec/e1/client.go; Sends and Accepts are on its requests and answers
--   Exec/E1/Reads      internal/exec/e1/reads.go; Snapshot is on the fills that it accepts
--   Book/Frame         internal/book/frame.go; Parsed is on the frames that parse
--   Book/Detect        internal/book/detect.go; Runs and Day are on resyncs, Tape on volumes
--   Book/Evidence      internal/book/evidence.go: the lines
--   Book/Recorder      internal/book/recorder.go
--   Book/Replay        internal/book/replay.go; Agrees is on the replay of what a recorder wrote
--   Bookfeed           internal/bookfeed/snapshot.go; Clock is on its exchange time
--   Quote              internal/quote/limits.go; Window is on the limit, Refused on the memory
--   Quote/Session      internal/quote/session.go; Merge is on the merged schedule
--   Quote/Symbols      internal/quote/symbols.go; Listed is on the lists that it accepts
--   Decode/Notice      internal/decode/notice.go
--   Decode/Counters    internal/decode/counters.go
--   Decode/Record      internal/decode/decode.go; Time is on the time of a fill, Fills on its records
--   Decode/Duplicate   internal/decode/duplicate.go; Bounds is on its memory
--   Stream             internal/stream/stream.go; Entries is on what is read back
--   Sink, Sink/Client  internal/sink/sink.go; Acks, Posts and Flow are on its deliveries
--   Sink/Delay         internal/sink/sink.go: the retries; Paced is on their delays
--   Sink/Run           internal/sink/sink.go: the loops over the queue
--   NetPolicy          internal/netpolicy/netpolicy.go
--   */Tests            the theorems at concrete inputs
--
-- An int64 is an integer with `wrap64` after each operation that can overflow; a string enumeration
-- is a data type with one constructor for every other string; a nil pointer is `none`; a map is an
-- association list; an error is a constructor without its text. The lines of a journal are read with
-- as many rounds as the file has bytes, and each round uses one byte at least; `rootOf` goes through
-- one round more than there are children, and each round sees a new key; `Tick` has its eight
-- rounds. The retries and the loops of the sink go over what they meet outside, in order, as far as it
-- is given; a call that has not ended by then has no result.
--
-- JSON, SHA-256, the time zones, the library's sort and float products, the package ws of go-kis,
-- Redis, HTTP, the gateway, the disk and the kill switch are parameters. So is what JSON makes of the
-- texts of an evidence line, which need not be UTF-8 (Book/Evidence, Texts). Not modelled are the
-- parsing of an intent, file locks and folder syncs, the sort of BrokerOrders, logging, the sockets,
-- the client of KIS, and the commands.
pub mod Prelude
pub mod Book
pub mod Bookfeed
pub mod Decode
pub mod Exec
pub mod NetPolicy
pub mod Quote
pub mod Sink
pub mod Stream
