-- ===== src/Lib.antt =====
-- The setup ceremony: a server that queues contributors, and the contributions that they make, one on
-- top of another.
--
-- The server (server/src) keeps a table of contributors. A contributor is registered by the
-- administrator, joins the queue, and at its front downloads the previous contribution, computes,
-- uploads, and is verified by a spawned task; a timer kicks who is too slow.
--   * Contributor, Messages: `Contributor` of common/src/contribution.rs, the requests of
--     common/src/messages.rs.
--   * Server/Store/Row, OrderBy, Db: server/src/store/contributors_db. The table is the list of its
--     rows in the order of insertion; an UPDATE is `update_where`, an INSERT appends, a SELECT filters
--     and sorts. A statement succeeds unless the rows themselves make it fail.
--   * Server/Config, Error, State, Responses, Handlers, Tasks, Authentication, Dispatch: the files of
--     the same names in server/src, with `handle` of handlers.rs and serve.rs in Dispatch and the
--     spawned verification of `handle_update_upload_progress` in Tasks. A handler holds the lock of
--     the database from its first query to its end, so it is a function from states to states; a
--     verification lets the lock go, and is cut there into three stretches.
--   * Server/Queue: the invariant of the table, the moves of the queue as a step relation, and what
--     the queries find. Server/System: the running server as a list of events (requests, ticks and
--     stretches of verifications, in any order), and what holds of its runs.
--
-- The contributions (common/src), over an abstract pairing, Crypto/Curve:
--   * Crypto/MultipairingEquation, BlsSok, PowersOfTau, HidingKzg, Fptx: the files of common/src of
--     these names. Crypto/Aptos: aptos.rs and truncate.rs. Crypto/Contribution: contribution.rs.
--   * Fptx/Params: the loop of `FPTXParams::new` runs on fuel. It halves its variable, which starts at
--     the batch size, so the batch size is fuel enough.
--   * Serde: common/src/parallel_ark_serde.rs, over any encoding of a fixed size. The splitting into
--     chunks runs on fuel, one unit a chunk, and the length of the bytes is fuel enough.
--
-- The way of a contribution from the contributor to the server:
--   * Upload: common/src/upload.rs; the loop goes through the list of the URLs.
--   * Server/Store/ContributionFiles: server/src/store/contribution_files.rs over the calls of the
--     cloud. Its children hold what is asked of a working cloud (Bucket), the upload plan, the end of
--     an upload, and the round trip of both.
--   * Server/VerificationJob: server/src/verification_job.rs. `files_store` fills the interface that
--     the handlers take; Accepts goes all the way from the making of a contribution to its
--     verification, and Turn takes a contributor through a whole turn of the server over it, by the
--     stages that Server/System/Turn asks of a files store.
--   * Client/World, Client/Contribute: client/src/contribute.rs, with the sending of
--     common/src/messages.rs in World. The two loops that poll the server run on fuel, one unit a poll,
--     and have a result of their own for its end, as they may poll for ever. Contribute/Fuel
--     holds the unbounded loop of the first.
--   * Client/Csv: client/src/csv.rs, with the two commands of client/src/run.rs that use it.
--   * Stateful: the monad of these files, which keeps its state when it fails.
--
-- Tests holds concrete servers, curves and contributions.
--
-- Parameters: for the handlers the files store and the verification job over it (`FilesStore`),
-- the calls of Google Cloud Storage (`Cloud`), the client's network, clock and files (`World`)
-- and its machine (`Machine`), JSON and signatures (`Wire`), hexadecimal texts and new keys
-- (`Keys`), arkworks (`Curve`), the hash to the curve, blake3, BCS, the setup of aptos-dkg. Times
-- are numbers of nanoseconds, a key is the number of its bytes, and what is logged or printed is
-- left out. A failure of SQLite or of a lock is not modelled, and of a restart only the state that
-- it leaves. The accept of a connection, which serve.rs unwraps, is left out; a request whose body
-- breaks off is one of the inputs. A handler runs to its end once it has begun: that hyper drops a
-- handler at one of its awaits when the client disconnects, so that of its writes only the first are
-- made, is not modelled, and the results on runs of the server do not cover it. `TimeDelta::seconds`
-- of chrono is read as its documentation says, with a panic out of bounds.
--
-- Not modelled: the other commands of the client, which read and write files and print, entry
-- points, benchmarks and tests. The work that threads do side by side is done in one order.
pub mod Base
pub mod Client
pub mod Contributor
pub mod Crypto
pub mod Messages
pub mod Serde
pub mod Stateful
pub mod Server
pub mod Tests
pub mod Upload
