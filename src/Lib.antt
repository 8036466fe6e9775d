-- ===== src/Lib.antt =====
-- exokephalos: a library on the Rust crates of the note keeper: its core, crates/xo-core, and parts
-- of the server, crates/xo-syncd, and of the terminal program, crates/xo.
--
-- The program keeps notes as immutable revisions. Every device writes its own revisions and, per
-- note, its own head; the replicas of all devices merge them as a set of records, and each
-- computes its view of the notes from these. The parts, from the bottom up, and the files that
-- model them:
--
-- - Prelude: what the files share: lists, total orders, `Text` (a string is the list of its bytes),
--   `BTreeMap` and `BTreeSet` as the ascending lists that iteration shows, the stable sort of
--   slices, `Result` with `?`, `Effect` for methods that change a state and may fail (what was
--   changed before an error stays changed), and `Path::components`.
-- - Hlc (crates/xo-core/src/hlc.rs): timestamps, their order, and the clock. The counter saturates
--   at the largest `u32`, as in the source; `wall_clock_ms` is an argument.
-- - Id (crates/xo-core/src/id.rs): note identifiers. The random draws of the generator are a list.
--   The division loop of `encode_base32` runs on its value as fuel, which each round divides by 32.
-- - Domain (crates/xo-core/src/domain.rs): records, their validation and `revise`, `delete`,
--   `restore`, `rename`. The encoder `ciborium` and the hash `blake3` are the parameter `Encoding`.
--   An `f64` is its bit pattern.
-- - Resolution (crates/xo-core/src/resolution.rs): validation of the revision graph, `is_ancestor`
--   and `resolve_heads`. The search runs on one round more than there are predecessor links: it
--   pushes the predecessors of a revision only when it visits it first, so this is enough fuel.
-- - CentralSync (crates/xo-core/src/central_sync.rs): the frames of the handshake with a server.
--   `serde_json` is the parameter `Json`.
-- - Projection (crates/xo-core/src/projection.rs): writing the resolved notes into a directory. The
--   state is the files, by location, the expected writes and the manifest, in memory and as saved;
--   each operation of the file system may fail, as the parameter `faults` says.
-- - Workspace (crates/xo-core/src/record_workspace.rs): the store of records as an interface; its
--   laws, Workspace/Laws, say that it is a map from keys to values. `ciborium` is the parameter
--   `Codec`.
-- - Records (crates/xo-core/src/records.rs): the typed repository over that interface. Keys and
--   errors are in Records/Keys, `decode_record` and `resolve_group` in Records/Decode, assets,
--   configurations and tombstones in Records/Listing, all notes at once in Records/Snapshot.
-- - Behavior (crates/xo-core/src/behavior.rs): the views, queries and actions that a workspace
--   declares; Behavior/Matching and Behavior/Selection describe what a query asks for. Lower case,
--   trimming and the printing of numbers and JSON are the parameter `Rendering`.
-- - Replica (crates/xo-core/src/automerge_store.rs, crates/xo-core/src/central_replica.rs): the
--   implementation of that interface over an Automerge document, which is the parameter `Automerge`
--   with the laws that a key has the value put under it last and that the keys with a value are
--   listed. Disk failures are the parameter
--   `faults`. Replica/Open is the opening of a replica on its file, Replica/Listing what the listings
--   show, Replica/Reopen a replica that is opened again, which relies on Automerge to load the values
--   that were saved. The calls that only pass on to Automerge, among them its synchronization, are
--   left out.
-- - Markdown (crates/xo-core/src/markdown.rs): notes as Markdown files with frontmatter, slugs and
--   canonical paths. `serde_yaml` is the parameter `Yaml`, the tables of Unicode are `Unicode`.
-- - Central (crates/xo-syncd/src/central.rs): the server's copy of a workspace. Central has the
--   operations on items and on connected clients, over Records, Resolution and Hlc; Central/Identity
--   the start in the state directory, with the files that keep the workspace's name and actor and with
--   the replica's document, and Central/Reopening a server that starts again; Central/Session the
--   session of one client, as a run over the list of what the socket, the notifications and the timer bring.
--   Resolution/Supersede has the predecessors that a new revision gets.
-- - ApiKeys (crates/xo-syncd/src/api_keys.rs) and Auth (crates/xo-syncd/src/auth.rs): who may do
--   what. `sha2`, `serde_json` and random bytes are parameters; so are `jsonwebtoken` and the requests
--   to the issuer. Auth/Discovery is what the server does with the issuer when it starts.
-- - Keymap (crates/xo/src/keymap.rs): the key bindings of the terminal program. Keymap/Parser reads
--   the bracketed source; a form is read on two rounds a byte and two more, since a bracket takes two
--   rounds and each form takes a byte at least.
-- - Server (crates/xo-syncd/src/server.rs, pwa.rs and llm.rs beside it, and the note of a captured page
--   of crates/xo-core/src/url_capture.rs): the HTTP interface. Server/Http has requests, responses and
--   the reading of bodies, Server/Route the `match` of `handle`, Server/Checks the check of tokens and
--   the handlers of API keys, over Auth and ApiKeys, Server/Items the handlers of items and
--   Server/Notes the notes that they make, over Central, Server/Patch a JSON Patch, Server/Fence the
--   quoting of webhooks, Server/Pwa the embedded files, Server/Origin the address in llm.txt. `hyper` is what the code asks of
--   it; `serde_json`, `serde_yaml`, `json_patch` and the capture of a page are parameters.
--
-- Not modelled: what only calls other services or draws (the terminal interface, the web client,
-- the accepting of connections, the language server), the interpreter of plugin code, the
-- SQL index, and encryption, which only calls a library. Text is taken to be UTF-8 where the source
-- has a `String`.
pub mod Prelude
pub mod Hlc
pub mod Id
pub mod Markdown
pub mod Domain
pub mod Resolution
pub mod CentralSync
pub mod Projection
pub mod Workspace
pub mod Records
pub mod Behavior
pub mod Replica
pub mod Central
pub mod ApiKeys
pub mod Auth
pub mod Server
pub mod Keymap
