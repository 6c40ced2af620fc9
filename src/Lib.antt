-- ===== src/Lib.antt =====
-- Rustion, an SSH bastion server: users log in to it over SSH, it checks their credentials and
-- counts their attempts, asks its policy table (in the manner of casbin) what they may do, and hands
-- the connection over to an application, which connects to a target host or shows a terminal
-- interface. Paths are from the repository's root.
--
-- The parts and their files:
-- - Prelude: shared names and lemmas. Results is `Result` with `?`, Actions a method on `&mut self`
--   that returns, fails or panics, Map the standard `HashMap`, Text strings as lists of code points.
-- - Casbin.Rules: the rows of src/database/models/casbin_rule.rs and the labels, groups and errors
--   of src/server/casbin.rs and src/server/error.rs. Casbin.Graph: the interface of the graph crate.
-- - Casbin.Roles: `build_graph` and `RoleManage` of src/server/casbin.rs. `build_graph` keeps an index
--   from ids to nodes and links the member of each row to its group; `match_role` and
--   `fetch_role_from_start` walk the graph. Roles.Index, Roles.Match and Roles.Fetch hold the
--   invariant of index and graph and the theorems.
-- - Casbin.Policy: `ExtendPolicy` of src/server/casbin.rs with its parser (`from_str`), printer
--   (`to_string`, `serialize`) and check (`verify_extend_policy`).
-- - Casbin.Names: the checks of `CasbinName` and `PermissionPolicy` of
--   src/database/models/casbin_rule.rs.
-- - Server.Enforce: `enforce` of src/server/bastion_server.rs, over a role manager and the answers of
--   two database queries. Server.Offered: its `list_targets_for_user`, which says what a user may
--   connect to, over the role manager and the tables of Database; Offered.Granted puts the two together.
-- - Server.Attempts: `increment_counter`, `remove_counter`, `reject_auth_attempts` and
--   `clear_auth_attempts` of src/server/bastion_server.rs. Attempts.History runs events on them.
-- - Server.Login: `LoginParse` and `LoginMode` of src/server/bastion_handler.rs.
-- - Server.User: `User` of src/database/models/user.rs with its password and key checks,
--   its validation in User.Validate, and the setting and printing of credentials in User.Credentials.
-- - Server.Handler: `BastionHandler` of src/server/bastion_handler.rs while it authenticates:
--   `init_login`, `get_user`, `max_auth_attempts`, `auth_password` and `auth_publickey`. The last two
--   share their text but for the credential and the message, and so they share `authenticate`. It
--   calls Server.Login, Server.Attempts and Server.User, as the code does.
-- - Widgets.Inputs, Widgets.Radio: the key handling of the text and radio widgets of
--   src/server/widgets/mod.rs. Widgets.Form: `FormEditor` of src/server/widgets/form.rs, with its
--   phases in Form.Keys. None stands for a panic there. Widgets.Table: the row, the page and the
--   zoom of `AdminTable` of src/server/widgets/table.rs, with its moves in Table.Steps.
--
-- - App: what a connection does once it is authenticated. App.World is what it acts on: the backend,
--   the SSH session, the target and the recorder, as a trace of what was sent, with answers that may
--   depend on the trace. App.Method is a method on `&mut self` over a trace, with rules for invariants
--   (Keeps) and for the absence of panics (Calm). App.ConnectTarget, with its requests, is
--   `ConnectTarget` of src/server/app/connect_target.rs up to the task that `bridge` starts;
--   App.Screen is what `Admin` and `Player` of src/server/app/admin.rs and src/server/app/player.rs
--   have alike; App.Password and App.TargetSelector are change_password.rs and target_selector.rs of
--   src/server/app up to the tasks of their shells. App.Bastion, with its requests, is the rest of
--   `BastionHandler`: opening channels, passing requests on to the application, and `process`;
--   Bastion.Steps runs them in any order. App.Permission says when a trace is justified.
--
-- - Recording: src/asciinema. Recording.Quantizer and Recording.Utf8 are `Quantizer` and
--   `Utf8Decoder` of util.rs, Recording.Session the handlers of `Session` in session.rs, and
--   Session.Acts runs them in a sequence. Recording.Cast holds the events of asciicast/mod.rs, the
--   conversion of file_writer.rs and the texts of numbers and times; Cast.Lines is `V3Encoder` and
--   `Parser` of asciicast/v3.rs, line by line; Recording.Idle is `limit_idle_time` of asciicast/mod.rs.
--   A session's events go through `of_session` to the writer, whose lines the reader gives to the player.
--   Prelude.Int and Prelude.Decimal are signed integers and decimal texts, Prelude.Options chains
--   results that may be missing.
-- - Terminal.Completion: src/terminal/completion.rs. `CompletionNode` and the insertion of words are
--   in Terminal.Completion itself, `natural_cmp` in Completion.Order, and `complete` of the completer
--   in Completion.Line. `char::is_alphanumeric` is a parameter.
-- - Database: tables and queries of src/database/sqlite.rs, in Database.Tables, and the operations on
--   one row of the table of names in Database.Names, and of that of target secrets in Database.Links.
--   SQL is read by its rules: rows in the order of a scan, a join as a loop in a loop, a broken
--   constraint as an error. Other failures are left out.
--
-- Code that is not in the repository is a record of operations and of the laws that its documentation
-- gives: `DiGraph` (petgraph), `IpLib` (ipnetwork), `TimeLib` (chrono), `CounterCache` (moka; an entry
-- that lapses is an event of the environment), `Crypto` (argon2 and ssh-key), `TextArea`
-- (tui-textarea), `Json` (serde_json). `Queries`, and the argument `users` of the handler, stand for
-- the answers of the database while one request is served. The witnesses fill each of them with
-- concrete functions.
--
-- A `Uuid` is its 128-bit number. Machine integers wrap where the code lets them, at 2 ^ 32 for the
-- attempts of a connection and 2 ^ 64 for a usize, and saturate where it saturates. The loops are
-- structural recursion over a list, but for the decoder of UTF-8, whose fuel is the number of its
-- bytes: every round takes one away. Decimal digits have the largest number of their type for fuel.
--
-- Not modelled: the header of a recording, its colours, and the tasks that pass events on and replay
-- them at their times; the tasks that the applications start; the other queries of the database, among
-- them its own `list_targets_for_user`, which nothing calls; configuration and start-up;
-- whatever is only drawn or logged for debugging; the time in a log row. An awaited call is a call: two
-- requests on one connection do not overlap.
pub mod Prelude
pub mod Casbin
pub mod Server
pub mod App
pub mod Recording
pub mod Database
pub mod Terminal
pub mod Widgets
