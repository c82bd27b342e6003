-- ===== src/Lib.antt =====
-- A model of the logic of the mail server's own Python code: its admin service and the libraries of
-- its containers.
--
-- Podop (core/base/libs/podop): the proxy between Dovecot and Postfix and the admin's HTTP API.
--   Podop/Escape.antt is `tabescape` and `tabunescape` of podop/dovecot.py, as the chains of
--   `bytes.replace` that they are; RoundTrip.antt reduces both to maps of single bytes.
--   Podop/Netstring.antt is the buffer of `NetstringProtocol` of podop/postfix.py: `data_received` with
--   the steps of its body as `fill`, `detect` and `deliver`, and `send_string`; an exception is none.
--   Podop/Dict.antt and Podop/Dict/Handlers.antt are `DictProtocol` of podop/dovecot.py: the fields of a
--   connection as `State`, a function for each `process_` method, `command` for COMMANDS, and
--   `data_received`, which answers with the tasks to run, or with none where the connection is aborted.
--   Handlers.antt has the tasks as they are where nothing comes between their awaits, and
--   Handlers/World.antt lets packets, tasks and the turns of running commits come in any order.
--   Podop/Socketmap.antt is `SocketmapProtocol` of podop/postfix.py over that buffer: `string_received`,
--   `process_request`, and `serve` for a whole connection whose replies come in the order of requests.
--   The tables, UTF-8 and `json.loads` are arguments.
-- LogFilter (core/base/libs/socrate/socrate/log_filter.py): the filter between a service's pipes and
--   the container's log. A `Stream` is the state of one pipe and of its sink, a `Filter` a stream
--   with the shared queue. `consume` is the loop of `_consume`, on fuel one above the length of the
--   chunk, which is enough since every round but the last takes a newline off the chunk; `emit`,
--   `emit_line`, `flush_partial` and `on_read` are the functions of those names and a turn of the loop
--   of `main`; `write_all` is the loop over `remaining` of `_forward_output`, over a list of the
--   answers that `write` and `select` give. Signals, the child process and the threads are not modelled.
-- OAuth (core/admin/mailu/oauth2.py, core/admin/mailu/internal/views/oauth2.py, and the tables of
--   core/admin/mailu/models.py): the authorization server for mail clients. OAuth.antt holds the
--   tables, OAuth/Token.antt the mail tokens, OAuth/Grants.antt what happens to a grant's row,
--   OAuth/Endpoint.antt the handlers of /token and /revoke, OAuth/Introspect.antt the introspection,
--   OAuth/Pages.antt the buttons of the page of mail apps (core/admin/mailu/ui/views/tokens.py),
--   OAuth/Authorize.antt what a request to /authorize has to be and OAuth/Consent.antt this page, with the
--   requests that wait in the session and the forms that answer them.
--   The digests are the fields of `Crypto`; where a proof needs it, a MAC is assumed to hold no dot,
--   which hexadecimal does not. The name read off a User-Agent is an argument.
-- Mail (core/admin/mailu/models.py, core/admin/mailu/internal/views/postfix.py): where a message
--   goes. Mail.antt holds the tables and the binding of names to columns, Columns.antt the
--   comma-separated lists, Resolve.antt `resolve_domain`, `resolve_destination` and `Alias.resolve`,
--   Postfix.antt and Postfix/Transport.antt the maps that Postfix asks. The `idna` package, LIKE of the
--   database and the answer of a rate limit are arguments. A row's columns are decoded where they are
--   read, not when the row is loaded; `lower` is that of ASCII letters; equality of texts in the
--   database is exact. The SRS and DANE maps are not modelled.
-- Auth (core/admin/mailu/internal/nginx.py, core/admin/mailu/internal/views/auth.py,
--   core/admin/mailu/limiter.py, and the passwords of core/admin/mailu/models.py): logins of mail
--   clients. Auth.antt holds an account with its entry of the credential cache, Auth/Password.antt the
--   checks of passwords and application tokens, Auth/Nginx.antt `check_credentials`,
--   Auth/Nginx/Request.antt `handle_authentication`, Auth/Limiter.antt the rate limits and
--   Auth/Limiter/Endpoint.antt /auth/email. The hashes of `passlib`, the storage and the windows of
--   `limits`, sessions by token, and the functions of the `ipaddress` module are arguments; logs, /auth/basic
--   and /auth/user are not modelled.
-- Access (core/admin/mailu/ui/access.py): the decisions of the handlers `domain_admin`, `owner` and
--   `spam_admin` as Boolean functions of the current user and of the row that the view is about, the
--   names of all domains being an argument. The decorators around them are not modelled.
-- Session (core/admin/mailu/utils.py): the web sessions. Session/Base64.antt is the encoding of the keys,
--   Session.antt the store and the keys of `MailuSessionConfig`, Session/Operations.antt `MailuSession`
--   with the operations that take the store along, `save_session` of the interface, the tokens of the
--   webmail, and `prune_sessions` and `cleanup_sessions`. Eight bytes hold the time, as in the source.
--   The store is that of Redis, where an entry is gone after its time; that of development, which keeps
--   everything, is not modelled.
--   The keyed hash and the random bits are arguments, and pickling is a constructor of the values.
-- Required (core/admin/mailu/auth_flow.py): the queue of actions that a user has to complete, as the two
--   keys of the session that hold it, with every function of the file. Required/Queue.antt lets logins,
--   completions and requests come in any order. Parsing and joining of URLs are arguments.
-- Uuid: the standard library's `uuid.UUID` of a text and its `str`, for the ids of the quarantine and
--   the models of authenticators.
-- Quarantine (core/admin/mailu/quarantine_repository.py): the files of rejected and greylisted messages,
--   as two tables by the stem of the name. `store`, `get`, `delete`, `entries` and `cleanup_expired` are
--   the functions of the source. The clock and its texts are arguments, the JSON of a record is its
--   fields, and a failing disk is modelled only as a file that cannot be read.
--   Quarantine/Greylist.antt is core/admin/mailu/greylist.py over these files, with the SHA-256 as an
--   argument.
-- Passkeys (core/admin/mailu/passkeys.py, core/admin/mailu/setup_tokens.py and `passkey_authenticate` of
--   core/admin/mailu/sso/views/passkeys.py): the policies of a domain and `register_credential`, whose
--   checks are `objection`; Passkeys/Login.antt the sign-in, over the keys of the session that it uses and
--   the two tables; Passkeys/SetupTokens.antt the links. What the webauthn package verifies is an argument,
--   as are the SHA-256 and the random bits.
--
-- Prelude holds what the parts share: tests and conditionals, lists over the native numbers,
-- decimal numbers and the splitting of texts. Bytes and texts are lists of numbers. Each part keeps
-- its runs and the instances of its theorems in a module `Tests`.
pub mod Access
pub mod Auth
pub mod LogFilter
pub mod Mail
pub mod OAuth
pub mod Passkeys
pub mod Podop
pub mod Prelude
pub mod Quarantine
pub mod Required
pub mod Session
pub mod Uuid
