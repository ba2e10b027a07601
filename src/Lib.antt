-- ===== src/Lib.antt =====
-- nats-requeue keeps NATS messages in a Badger database and publishes them again until they are
-- acknowledged. A message stands under a queue key, `_q._m.<queue>.<key>`, whose last part is a
-- 24-byte key: the time when it is due, a sequence number and the identity of the instance. A queue
-- remembers a checkpoint, the key before which it has no message left to publish, and keeps it in the
-- database under `_q._s.<queue>.checkpoint`. The republisher scans each queue from its checkpoint up to
-- the present, sends what is due, removes what was acknowledged and puts the rest back under a later
-- key. The manager holds the queues; the batched writer collects writes into transactions. The reaper
-- takes over the databases of instances that have died, and the statistics publisher reports the
-- queues' counters.
--
-- The files, and the code that each is about:
--   Bytes          byte strings, bytes.Compare, big-endian words of 8 bytes
--   Key            internal/key/key.go: New, Compare, PrefixOf, First, Last, UnixTimestamp, Seq
--   QueueKey       internal/queue/key.go: Bytes, ParseQueueKey, FirstMessage, LastMessage, PrefixOf
--   Result         errors as values
--   Store          the database as Queue, Manager and Republisher use it: transactions and iterators of
--                  Badger, which are a parameter with the laws that its documentation states
--   Stats          internal/queue/stats.go: AddCount, AddInFlight, refreshStats; Closing has the
--                  goroutines, the mutex and Close
--   Options        the loop that applies options; the parts' own are Conn.Options, Republisher.Options,
--                  Reaper.Options, StatsPublisher.Options and Stats.Options
--   Gate           internal/gate/counter.go
--   Ticker         internal/ticker/ticker.go: Loop and Stop
--   Background     initBackgroundTasks and Close of internal/republisher, internal/statspub and
--                  internal/reaper: loops on tickers
--   Queue          internal/queue/queue.go, queue_item.go: Range, ReadFromCheckpoint,
--                  EarliestCheckpoint, UpdateCheckpoint, UpdateCheckpointCond; Closing has Close
--   Manager        internal/queue/manager.go, queue_builder.go: loadFromDisk, CreateQueue,
--                  UpsertQueueState, and the builder's Set, Build, Reset; Closing has the
--                  background tasks and Close
--   Writer         internal/badger/badger_write_batch.go: handleEntry, Delete, commit, callback, Flush,
--                  Cancel; Throttle has the batch's lock and its throttle
--   Batched        internal/badger/batched_writer.go: SetEntry, the timer, flush, loop, WriteKVList
--   Protocol       protocol/requeue_msg.go: the message, Bytes, RequeueMessageFromNATS
--   RequeueMsg     the same messages' encoding, with the accessors of flatbuf/requeue_msg.gen.go and
--                  their writes in place; Coded makes of them the codec that the other modules take
--   Republisher    internal/republisher/republisher.go: createEntry, adjMsgBeforeRequeueToDisk,
--                  publishMessages; Run has processQueue, republish, correctCheckpoint; Workers has
--                  the worker pool of republish
--   Ingress        requeue.go: processIngressMessage and its commit callback, and AddMessage of
--                  internal/queue/queue.go
--   Conn           requeue.go: Connect, its init functions, the consumers and Close
--   Reaper         internal/reaper/reaper.go: getOtherInstanceIds, reap, mergeInstance, copyBadger,
--                  removeInstance; Databases is the parameter for directories and databases
--   StatsMsg       protocol/stats_msg.go and the accessors of flatbuf/stats_msg.gen.go; Flatbuffers is
--                  the parameter for the library's builder and buffers
--   StatsPublisher internal/statspub/statspub.go: publish
--   Prelude, Assoc helpers; Tests instances of the parameters, and the theorems at concrete inputs
-- A file's folder holds what is proved about it.
--
-- How the code is modelled. A method that holds a lock is one step on a record of its state. The
-- republisher's workers take their messages one after the other; the asynchronous callbacks of the
-- write batch and the timer of the batched writer are steps of their own, in any order. A panic is
-- `none`, an error a value, a goroutine that waits for a mutex or a throttle for ever `blocked`. The
-- clock's readings, the outcome of a request and the answers of the commit throttle are arguments.
-- The connection's parts, the workers of the republisher, the tickers and the goroutines that use
-- them are step relations instead, in which they take their steps in any order; in that of the
-- connection, the end of a part that was told to stop is a step that may come or not. The handlers of
-- a write batch are given to goroutines, which may run them in any order. An accessor of a message
-- panics on bytes that are not those of a message. What Badger shows of an entry with a time to live
-- is stated for a span of time in which nothing that was shown expires. A run of the workers on m
-- messages has at most 6 m + 2 steps. Integers of 64 bits have their wrap-around written out. Every
-- loop is structural recursion on the list of items that it iterates over, so no fuel is needed.
--
-- Not modelled: retry.go, a call of the loop of a backoff library; the opening of the database and
-- its lock files, which are a copy of Badger's, the assertions of internal/debug, and printing.
-- Another process at work on the directories that the reaper takes over is not modelled.
pub mod Prelude
pub mod Bytes
pub mod Key
pub mod QueueKey
pub mod Result
pub mod Store
pub mod Stats
pub mod Options
pub mod Gate
pub mod Ticker
pub mod Background
pub mod Queue
pub mod Assoc
pub mod Manager
pub mod Writer
pub mod Batched
pub mod Protocol
pub mod Republisher
pub mod Ingress
pub mod Reaper
pub mod Conn
pub mod Flatbuffers
pub mod StatsMsg
pub mod RequeueMsg
pub mod StatsPublisher
mod Tests
