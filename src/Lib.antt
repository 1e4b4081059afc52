-- ===== src/Lib.antt =====
-- BoxCopy: a command line program that copies the mailboxes of one IMAP server to another. For each
-- mailbox of its configuration a worker connects to both servers, creates the missing folders on the
-- target, and copies the messages of each folder that the sync state does not know yet. The sync
-- state is shared by the workers and saved to a JSON file. A copy is only performed once the user has
-- confirmed it; it first empties the target mailboxes and clears their saved state. A verification
-- compares the folders of both sides afterwards.
--
-- The files, and the code that they model:
-- - State (internal/state/state.go): the sync state. `State.Ops` has the methods that change it,
--   `State.Reads` those that read it, under the names of the Go methods in snake_case; a method that
--   returns a value returns it beside the new state. Each method holds the lock from its first read
--   to its last write, so each is one step. A Go map is an association list with each key once.
--   `State.View` is the abstract view, a total map from names to mailboxes and folders; `State.Calls`
--   has the calls as data.
-- - Store (internal/state/store.go): `Store.File` has the JSON document, `Store.Ops` has Load, Save,
--   SaveIfDirty and Stats over a disk whose system calls may fail.
-- - Config (internal/config): `Config.Load` has Load and the loaders of the sections, `Config.Validate`
--   Validate (config.go), `Config.Crypt` the encryption of passwords (crypt.go), and
--   `Config.Configured` the load, check and decryption with which the runner and the verifier start.
-- - Imap (internal/imap): `Imap.Client`, `Imap.Folders` and `Imap.Messages` have the methods of
--   `Client`, `Imap.Fetch` and `Imap.Message` the parsing and the conversions, `Imap.Keepalive` the
--   keepalive goroutine as the steps that it makes beside other calls.
-- - Mailbox (internal/mailbox): `Mailbox.Box` has connect, disconnect and copy (mailbox.go),
--   `Mailbox.Folder` copyFolders and copyFolder, `Mailbox.Message` copyMessage and appendMessage, and
--   `Mailbox.Pipeline` the fetcher goroutine and the copier loop (copy.go).
-- - Verifier (internal/verifier/verifier.go): `Verifier.Compare` has verifyMailbox, which compares the
--   folders of a mailbox on both servers, and the results, `Verifier.Verify` the loop over the
--   mailboxes.
-- - Runner (internal/runner/runner.go): `Runner.Clean` has cleanTargets and cleanTargetMailbox,
--   `Runner.Run` has Run, performCopy and confirmCopy, `Runner.Queue` the use that both make of a
--   worker pool.
-- - Command (cmd/boxcopy/main.go): `Command.Main` has main and the commands, `Command.Init` cmdInit
--   and the template, `Command.Report` the printed report of a verification, as a list of lines.
-- - Base: the names, operators, tests and lemmas that the other files share; `Base.Exec` is the form
--   of a Go method, a function from a state to a result and the new state.
-- - Tests: runs of a whole copy and of the commands at concrete servers, and the theorems at concrete
--   inputs.
--
-- What is not part of the repository is a parameter. `Imap.Api.Api` holds the commands of the library
-- go-imap, the clock, the cancellation of the context and the throttle; `Config.Host.Host` the paths
-- and modes of the file system and the TOML library; `Config.Crypt.Cipher` the packages crypto and
-- base64; `Runner.Data.Pool` the worker pool; `Command.Data.FlagSets` the package flag. Nothing is
-- assumed of them, except where a theorem names it: `Config.Decrypted.IsSound` and `ReadsFully` say
-- that opening undoes sealing, decoding undoes encoding and a random reader fills its buffer,
-- `Runner.QueueLaws.RunsAll` that a pool has run every task of its queue when its wait reports no
-- error, and `Mailbox.Answered.AnswersAll` that a server which answers a fetch of some UIDs without
-- an error has a response for one UID whenever it is among them.
--
-- A mailbox copy works on its own clients, its counters, the sync state and the world, which stands
-- for the servers, the network and the time. The fetcher and the copier of a folder are joined by a
-- channel of two batches of at most 50 messages; a schedule, any list of Booleans, says which of the
-- two makes the next step, and once it ends the copier goes first until both are done. The rounds
-- that are then left are counted by the number of UIDs that have not been fetched, which is enough
-- since each round takes at least one of them.
--
-- The tasks of a pool run one after the other, in the order that the pool chooses, and after the last
-- was put into the queue. In the program they run beside each other; what they share is the sync
-- state, whose methods are one step each, and `State.Interleave` has any order of these steps.
--
-- The state file and the files that `init` writes are on one disk, by their paths: two names of one
-- file, by a link or another spelling, are two files there. `init` takes the modes of the files too.
--
-- Machine integers: counters of type int64 are bit patterns modulo 2 ^ 64, sizes are cut to 32 bits
-- where the code does it; UIDs are only compared, and so are the signed numbers of the configuration.
-- A panic on a nil pointer is the error `nil_dereference`, or `panicked` in a load.
--
-- Not modelled: logging, the progress milestones, the signals that cancel the context, the text of the
-- JSON file, the modes of the files that Save writes, the usage text, the printed summary of the
-- confirmation and the rounding of the sizes in the report.
pub mod Base
pub mod State
pub mod Store
pub mod Config
pub mod Imap
pub mod Mailbox
pub mod Verifier
pub mod Runner
pub mod Command
pub mod Tests
