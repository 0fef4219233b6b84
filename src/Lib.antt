-- ===== src/Lib.antt =====
-- Endbot: who may control the Bots of a Minecraft server, who owns them, and the link that orders come by.
--
-- The program is a daemon (core/src/endbotd) on a library (core/src/endbot_core), which a plugin of
-- the game server reports to and takes orders from. Modelled is the part that decides about access:
-- * Principal (core/src/endbot_core/principal.py): the caller of a command.
-- * Ownership (core/src/endbot_core/ownership.py): `OwnershipStore`, who owns a Bot or a group and
--   who sees it. `_kind`, `_identity`, `_entry`, `_is_owner` are `parse_kind`, `parse_identity`,
--   `parse_entry`, `is_owner_text`; `record` is `record_owner`.
-- * Enrollment (core/src/endbot_core/enrollment.py): the XUID that a configured GamerTag is bound to.
-- * Policy (core/src/endbot_core/controller_policy.py): grants and revocations of the console. The
--   sets that `remove` collects are `Aliases`, its two passes are two runs of `absorb_all`.
-- * Revisions (core/src/endbot_core/grant_revisions.py): a counter for each player UUID.
-- * Roles (core/src/endbot_core/controller_roles.py): the role of an XUID, or of a GamerTag that waits.
-- * Presence (core/src/endbot_core/link.py, class `Presence`): who is online, by the plugin's reports.
-- * Authority (core/src/endbotd/authority.py): the daemon's `Authority`, which holds one of each. State
--   has the decision and `authorize`, Changes the methods that change the state, Report the report
--   that `remove` reads, Words and Console the console's `operation`, Action the order of effects: a
--   method takes the state and leaves a state, whether it returns or raises. `add` and `remove` of
--   `_operation` are `add_controller` and `remove_controller`.
-- * Allowlist below Authority (core/src/endbot_core/authorization.py): the lists of the configuration.
-- * Inputs (core/src/endbot_core/script_inputs.py): which run owns which input of a Bot; `_record` is
--   `record_input`. The runtime, `control.request`, is a parameter with a state of its own;
--   an error that `cleanup` does not catch ends it.
-- * Registry (core/src/endbot_core/registry.py) and Limits (core/src/endbot_core/limits.py): the Bots by
--   UUID and by name, and how many may join.
-- * Journal (core/src/endbotd/journal.py): what `load` takes from the run journal of an earlier process.
--   A file that is too large, or no JSON, is `corrupt`; putting it aside is left out.
-- * Books (core/src/endbot_core/script_books.py): `source_to_pages`, of the lines that `splitlines` gives.
-- * Groups (core/src/endbot_core/groups.py): `GroupStore` and its file; below it Select has `select` and
--   the target syntax, Visible the class `_VisibleGroups`, and the rest are proofs: Written and Start of
--   the file, Changes of the lists, Invariant of all calls, Hidden of what a principal does not see.
-- * Histories (core/src/endbot_core/group_results.py): `ResultStore`, whose keys are the entries' own; the
--   texts of a result are left out. `get` of a number is `get`, the loop over the oldest is `pop_oldest`.
-- * Link (core/src/endbot_core/link.py): `FrameReader` and `encode`, with the sockets' chunks as a list.
--   Below it Connection has the futures and queues of `LinkConnection`, Requests what it receives and
--   answers, Server endbotd's `LinkServer`; Stream, Messaging, Futures, Messages, Lifecycle, Settled,
--   Unique, Presences and Senders have the proofs. `send` is `register`, under its lock, and `transmit`, so that
--   other threads may act in between. A close and a reply take futures off `_pending` under the lock and resolve
--   them outside it; each is one step with that resolution here. `set_result` of a future that is done, which would
--   raise, is not told from its test. A template that cannot be formatted makes `error_from_wire` raise, which the
--   parameter `WireText` decides. `stop` is two steps, since its last statement comes when the connections are closed. A future is
--   its number among those made. `_accept_reply` and `_accept_request` are `accept_reply` and
--   `accept_request`, the timeout of `request` is `give_up`, `_handle` is `handle`, `_closed` is
--   `link_closed`.
-- * LevelDat (cli/endbot/src/endbot_cli/leveldat.py): the reader of `level.dat`, its loop over a
--   compound on fuel, one turn for each byte that is left and one more; Summary has the flags, Total the
--   proof that the fuel is enough, Flags what a clean summary means. `_payload` is `payload`, its branches
--   `payload_of`; a float is kept as its bytes, and UTF-8 is the parameter `decode`.
-- * Scripts (core/src/endbot_core/script_store.py): `ScriptStore` and its file. Calls has its methods,
--   with `_stored` as `find_stored` and `stored`, `_save` as `save_all` and `list` as `list_scripts`; Run
--   the calls as values, Folder `load_files`. Written, Found, Invariant and Start are proofs of the file
--   and the invariant, Refines, Stale, Restored and Reported of what the calls and the folder promise.
--   The UUID and the time of a new revision are arguments, SHA-256 is the parameter `digest`.
-- * Web (core/src/endbotd): signing in to the web page. Codes has `LinkCodes` and Store `WebStore` (both core/src/endbotd/web_store.py),
--   Signing the ceremonies, sessions and principals and Verify the sign-in of `WebAuth` (core/src/endbotd/web_auth.py).
--   `_begin` is `begin`, `_finish` is `finish`, `_signed_in` is `signed_in_as`, and a path of `handle` is
--   the function of its method. A file of the store is the list of entries that it holds; the JSON around
--   them is left out. Changes has the calls of the store as values and the lemma that they keep what each
--   commit keeps; Devices has the sign-out and the
--   devices; Guesses, Redeemed, Holders, Synced, Lifetimes, Revoked, Granted, Ceremonies, Verified and
--   Passkeys are proofs. What is drawn at random is an argument; the package webauthn is the parameter `WebAuthn`,
--   of which nothing is assumed, SHA-256 is `digest` and `str.upper` is `upper`.
-- * Params (core/src/endbot_core/script_params.py): `required`, `declarations` and `split_named`; Arguments
--   has `arguments`, with Python's floats as the parameter `Floats`, of which nothing is assumed, and the
--   groups and Bots that the caller sees as `Scene`. Placing, Assigned, Declared and Fitting are
--   proofs. `is_default` takes the finiteness of a number as given, where `math.isfinite` may raise.
-- * Samples and the modules named Tests: runs on concrete values.
--
-- How the source is read:
-- * An exception is a value of `Error`, its class alone; the texts of messages are left out.
-- * A dict is an association list in insertion order, and a set of texts a list that is used through
--   membership only. JSON documents are trees in which numbers are integers or some other number.
-- * A file is what the next start reads, with whether it is a symlink and whether it can be replaced.
--   Writing replaces the whole document or raises, and a raise comes where the source's does:
--   Ownership, Revisions and Roles change the memory before, Policy, Enrollment, Groups and Scripts after.
-- * `str.casefold`, `str.lower`, `str.strip`, `str.isprintable` and `str(UUID(s))` are the parameter
--   `PyText`, with the documented laws: folding and stripping are idempotent, a stripped printable
--   text is printable, and the canonical form of a UUID is canonical.
-- * The time of a call is an argument, in whole seconds for the web page, where the source has floats. Each lock makes a method one step, so an interleaving is a list
--   of calls. `WebAuth` has no lock of its own: `begin`, `finish`, `link_verify` and the other methods are one step each
--   here, so what is shown of them holds for calls that do not overlap: a `_begin` can undo the `_finish` that it
--   overlaps, and two registrations at once can pass the bound of the passkeys. Log lines are left out.
-- * A JSON number as the UUID of a binding, which `str` could turn into a UUID, is refused.
-- * Loops run over lists by structural recursion, but for the one of LevelDat.
-- * `json.dumps` and `json.loads` with their UTF-8 are the parameters `dumps` and `loads`, `none` where
--   they raise; only the round trip of a frame uses that they are inverse, and that JSON as it is written
--   holds no newline. `str` of a JSON value is the field `str_of` of `WireText`, of which nothing is used.
-- * `uuid4` gives a canonical text that no other group has.
-- * `shlex.split` is the parameter `split`; no law of it is used.
--
-- Not modelled: reading the configuration of the access components (`from_config`), the texts of
-- answers, the sending of an input request, the commands of a group, the codecs of the link and the
-- plugin's end of it, the running of scripts and their sandbox, forms, the web service around the sign-in, the rest of the command line
-- tool and the adapter to the game server: they are input and output around these
-- components, or components of their own.
pub mod Prelude
pub mod Principal
pub mod Ownership
pub mod Enrollment
pub mod Policy
pub mod Revisions
pub mod Roles
pub mod Presence
pub mod Authority
pub mod Samples
pub mod Inputs
pub mod Registry
pub mod Limits
pub mod Journal
pub mod Books
pub mod Groups
pub mod Link
pub mod LevelDat
pub mod Histories
pub mod Scripts
pub mod Web
pub mod Params
