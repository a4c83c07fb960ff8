-- ===== src/Lib.antt =====
-- xfce-linux: a verification library of the Python tools of the repository.
--
-- The repository builds an operating system image with BuildStream; its Python code is the tools
-- around that build, and this library models them.
--
-- Parts, and the files that model them:
-- * tools/bst_dashboard/ (`Dashboard`): the log parser `parse_line` and the state that it updates.
--   `Types` is model.py (`State`, `snapshot`, `update`); `Patterns` has the regular expressions of
--   parser.py under their names in lower case, `Updates` its closures (`_start` is `start_job`,
--   `_done` is `finish_job`, `_fail` is `fail_job`, `_set_start` is `set_start`), and `Parse` the
--   stages of `parse_line` in their order. `Trace` has the closures as steps of a state machine,
--   `Invariant` what the steps keep, `Statuses` and `Render` the lines that BuildStream writes,
--   `Events`, `Recorded`, `Boundaries`, `View`, `Version` and `Logs` what the parser makes of them.
-- * tools/bst-dashboard.py (`Server`): `Tail` is `tail_log`, `Runner` the options and the control of
--   the build, `Deptree` the reader of `_fetch_deptree` and `Fetching` its threads, `Routes` the routes
--   and `Handler` the requests with the headers and the bytes of their replies, `Proc` the readers of
--   /proc, `Temperature` that of /sys, `Sampler` and `Sampling` the sampler, and `Enrich` is
--   `_enrich_cmake`; `Lines`, `Builds`, `Paths`, `Trees`, `Crates`, `Replies`, `Serving`, `Kept` and
--   `Sound` have the proofs. `Steps` puts the threads together over the state of `Dashboard`.
-- * scripts/ghcr-blob-stream.py (`Blob`): `Ref` parses the reference and finds the credentials,
--   `Download` has the loop over the attempts and the reads of one response, and `Command` the
--   arguments and `bearer`; `Reading`, `Loop`, `Verified`, `Completion` and `BrokenWrite` have the
--   proofs.
-- * xfce-linux/src/luks-unlock.py (`Luks`): `Keys` has the key maps, `Screen` the analysis of a
--   screendump, `Serial` that of the serial log, and `Qemu`, `Libvirt` and `WaitLive` the three modes
--   that `Command` chooses from. `Exits` has the constants. `Typing`, `Brightness`, `Timing`, `Markers`,
--   `Liveness`, `Boots`, `Prompt`, `Booted`, `Unchanged`, `Lease` and `Live` have the proofs.
-- * scripts/gen-filemap.py (`Filemap`): `Contents` reads what bst prints, `Build` has the map and
--   the manifest, `Main` is `bst` and `main`, `Sort` is `sorted`; `Entries`, `Words`, `Listing`,
--   `Items`, `Colours` and `Whole` have the proofs.
-- * scripts/apply-xattrs.py (`Xattrs`): its loops, and `Xattrs/Main` the arguments; `Xattrs/Counts` has
--   the proofs. `Chunkah` puts the two scripts together: the map that the first writes is the map that
--   the second applies.
-- `Regex` is Python's `re`, as far as the programs use it, and `Regex/Escapes` a machine that removes
-- escape sequences in one pass, by the proof in `Regex/Removal`; `Base` has the shared names, Python's `str` as a list of code points
-- with its methods, UTF-8 (`Utf8`), the printing of `json` (`Json`) and of numbers (`Decimal`).
--
-- How the code corresponds: a Python object is a record, a method a function to the new record; a
-- dict is an association list in insertion order, a set a list without repetition. The readings of
-- the clock are arguments, in whole microseconds, 0 for the 0.0 that stands for no time. The lock
-- of `State` makes each `update` one step. An entry of `failures` may be the same object as one of
-- `completed`; only `_set_fail_log` writes to such an entry in place, and only where it has no log,
-- which an entry that is shared always has (`IsRecorded`), so that the lists are modelled as values.
-- `\w` and `\d` of `re` are those of ASCII. The date of a build header is read by an argument.
-- The registry, its tokens, the hash function and the fate of each write are arguments of the
-- download; its loop needs no fuel beyond the 40 attempts, and a body is read with fuel for each of
-- its bytes, of which every read takes one at least.
-- In `Luks` time is in milliseconds, and what the machine shows in each round is an argument; a loop
-- of 300 seconds that sleeps 3 or 5 in each round has fuel for 100 or 60 rounds, after which the
-- sleeps alone reach the deadline. A brightness is the pair of the sum and the number of the samples.
-- A call that raises is an argument too: of a start, of `virsh`, of a key, and of a copy.
-- In `Server` a turn of `tail_log` sees one state of the file, and the parser is an argument of it. A
-- request is handled in one step; a fetch of the dependency tree has a first and a last step, between
-- which other threads take turns. Floats are an argument of the sampler.
--
-- Not modelled: the options that argparse reads, and the lines that most tools print; what bst, podman
-- and HTTP do, `json.loads`, and the JSON of a snapshot, which are arguments; an error of a write to the
-- file map; the page of the dashboard, docs, workflows, build elements and shell scripts.
pub mod Base
pub mod Regex
pub mod Dashboard
pub mod Blob
pub mod Luks
pub mod Filemap
pub mod Xattrs
pub mod Server
pub mod Chunkah
