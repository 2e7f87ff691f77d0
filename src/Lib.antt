-- ===== src/Lib.antt =====
-- librtmp2-server is an RTMP server with an HTTP API. Its nodes can form a Raft cluster: the stream
-- and viewer tables are replicated by the log, one node owns the ingest of a stream, and the media
-- plane carries the owner's frames to the nodes that have viewers.
--
-- What is modelled, and where (paths from the repository's root):
--   Base        Shared names: tests on numbers, lists measured by native numbers, texts, maps.
--   Db          src/db.rs, the tables `settings`, `streams`, `stream_viewers`, `stream_owners`,
--               `publishers` and `players` with their key constraints, and the calls of `Db` that
--               the state machine makes, with the lookup of a play key; src/keygen.rs,
--               `is_valid_access_key`.
--     Db.Tables, Db.Streams, Db.Viewers, Db.Owners: one definition per call, with its name.
--   Cluster     src/cluster.
--     Cluster.Command: command.rs, `ClusterCommand` and `ClusterResponse`.
--     Cluster.StateMachine: raft/state_machine.rs. Handlers has one function per arm of
--       `apply_command`, Seed the arm `SeedFromStandalone` and the dispatch, Apply the function
--       `apply` with `persist_applied_tx`. Replies, Stable and Batch say what passes from the
--       database calls to commands and from commands to batches; `Stable` is the interface that a
--       preserved property of the tables fills.
--     Cluster.Keys, Cluster.Fencing, Cluster.Progress, Cluster.Playback, Cluster.Identity: proofs
--       about the log.
--     Cluster.Security: security.rs. Failures has the table of failed handshakes, Secrets the
--       comparison of secrets, Budget the bytes in flight as a step relation. Recorded, Limited and
--       Exact are proofs.
--     Cluster.LogStore: raft/log_store.rs. Store has the calls; Rows, Log, Answered, Reads and
--       Votes are proofs.
--     Cluster.Health: health.rs. Tracker has the calls of `HealthTracker`; Heard, Swept, Others
--       and Silent are proofs.
--   Media       src/cluster/media.
--     Media.Protocol: protocol.rs, the messages.
--     Media.Wire: wire.rs. Write has `write_frame`, Read has `read_frame`; Bytes has what they use
--       of the standard library. Lengths, Parts, RoundTrip, InitRoundTrip, Took and Sync are
--       proofs.
--     Media.Queue: live_queue.rs. Defs has the data, Inner the functions of `Inner`, Ops those of
--       `LiveMediaQueue`. Books, Keeps, Purges, Room, Push, Outcome and Runs are proofs.
--     Media.Timeline: timeline.rs, the time stamps across failovers.
--     Media.Ownership: ownership.rs, the owners and epochs that a node has on record.
--     Media.Subscription: subscription.rs. Inbound and Outbound are its two tables; Refs has the
--       counts that the first one promises, Owned and Promises the holders of the second.
--     Media.Cache: cache.rs, the staged init fields; Epochs has the proofs.
--   RateLimit   src/rate_limit.rs.
--     RateLimit.Limiter: the table of buckets and `check`. RateLimit.Requests: the bucket, the cap
--       and the client of a request, and `middleware`. Evict and Outcome have the cases in which
--       `check` ends; Bounds, Throttled, Sliding, History, Bearer, Clients, Forwarded and Runs
--       are proofs.
-- The modules called Tests run the code on concrete inputs. The log applies commands to the tables;
-- the media plane puts messages through a `LiveMediaQueue` for each peer and writes them with
-- `write_frame`.
--
-- Conventions:
--   A `String` or a `Vec<u8>` is the list of its bytes. A hash map is an association list whose
--   order stands for the unspecified order of iteration; the two-level maps of streams by app and
--   name are one map by the pair. Integers are native numbers: `u64`, `u32` and `u8` arithmetic that
--   can wrap around is written with `%`. Instants are nanoseconds. A call under a mutex is one step.
--   SQLite: a `Fault` tells which statements of a call succeed, the check of a key apart from the
--   other queries, and a failed statement changes nothing. It is an argument of every call, so a
--   theorem that does not restrict it holds for every failure. The clock is an argument of `check`,
--   with a second reading for the code that asks again. Printing and parsing of addresses are
--   parameters. Log ids and memberships are openraft's and are parameters (the log store has an
--   index for a log id), as are serde_json and the `u8` codes of librtmp2's `DeliveryHint` and its
--   classification of frames. The variants of `DeliveryHint`, `FrameType`, `CacheFrameKind` and
--   `EntryPayload` are those of the matches on them.
--   Fuel: `make_room` runs on the number of entries plus one, since every round removes an entry or
--   ends the loop, and Media.Queue.Room proves that this is enough; `read_vec` runs on the number of
--   bytes to read, since every round reads one at least.
--
-- Not modelled: HTTP, RTMP sessions, the server's event loop, the network and time limits, logging
-- and configuration, which are input and output; snapshots, the hub, and session tables, which are
-- state without a model.
pub mod Base
pub mod Media
pub mod RateLimit
pub mod Db
pub mod Cluster
