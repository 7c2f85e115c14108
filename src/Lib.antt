-- ===== src/Lib.antt =====
-- ThinPi: the core of the controller of a household's remote desktops.
--
-- The controller (controller/internal/app/store.go over SQLite) keeps users, sessions, devices,
-- connections and one-time tickets. A signed-in user asks it for a launch ticket for a connection; it
-- checks the permission and the user's access policy. The device's agent redeems the ticket, once,
-- for a manifest with the host and the secret, and starts a client.
--
--   Stamp      `stamp` and `time.Parse`, and the order of the texts that SQL compares
--   Policy     the decision of `PolicyStatus`: days, window, daily allowance, session limit
--   Db         the tables (controller/migrations), controller/internal/app/types.go, and the
--              interface `Security` to controller/internal/security
--   Store      the methods of `Store`: Audit (audit), Access (CanLaunch, ConnectionsForUser,
--              AccessPolicy, PolicyStatus, UserIdleTimeout), Launch (CreateLaunchTicket,
--              RedeemLaunchTicket), Sessions (Authenticate, Session, Logout), Users (CreateUser,
--              UpdateOwnProfile), Choices (LoginUsers), Handoffs, Maintenance, Devices, Events (SessionEvent)
--              and Credentials (CreateCredential, ReplaceCredential)
--   Web        controller/internal/web/server.go: Validate (validLabel, validHost, validProtocolConfig,
--              decodeProfilePhoto), Bodies (decode), Create, Records, Update, Delete (adminCreate,
--              adminUpdate, adminDelete), Request and Gate (tokenFrom, withSession, withAdmin,
--              withAdminPage, withDevice), Handlers, Terminals, Admin and Public (the handlers)
--              and Serve (the routes of New, and middleware); Range has the proof that requests
--              keep the policies within their bounds
--   Secrets    controller/internal/security/security.go, and the laws that the store relies on
--   Migrations controller/internal/database/database.go: migrate
--   Agent      agent/internal/launch/launch.go: Command, with the commands for FreeRDP (Build), for
--              VNC and Moonlight (Streams) and for SSH (Ssh), which also has commandFor;
--              Manager, the sessions and the requests on them, with Run (the changes that run
--              makes), Replace (the duplicates it cancels), Windows (Minimize, Resume) and Overview
--              (Status, and Cancel of all); and Trust, agent/internal/launch/ssh_trust.go (Prepare, Accept)
--   Tests      runs on concrete tables
--   Prelude    shared names, lists, texts and the monad of database actions
--
-- A table is the list of its rows in rowid order, and a statement of SQL is the list function
-- that it denotes: `find` for a row that a unique condition selects, `update_where` for an
-- UPDATE, an append for an INSERT, with the UNIQUE constraints written out as the failure
-- `constraint_failed`. A method is an action: it takes the database and returns a result and the
-- database; `transact` is BeginTx with the deferred Rollback. What a method reads of the clock is
-- an argument: separate readings are separate arguments, but those that are only written, the
-- audit event's among them, may share one; CreateLaunchTicket and Heartbeat have one for each.
-- The random tokens are arguments too, `none` where the source of randomness fails. A request
-- carries what the server reads of it (`Request`), and `Moment` what the server draws and the
-- clock shows meanwhile; how a JSON value is read is a parameter (`Readers`). An instant is a
-- number of nanoseconds. A text of a time keeps its seconds as their number beside the digits of
-- the fraction, which is the order and the meaning of RFC3339 texts of the years up to 9999;
-- time.Parse refuses later ones. Letters are made lower case and space is trimmed for ASCII only,
-- where Go does it for Unicode; the few other letters that Go turns into one of ASCII are not
-- modelled. A request on the agent's manager is what it does while it holds the lock; a session's
-- id, a text of a time and a counter of 64 bits, is the number `time * 2 ^ 64 + counter`. Only
-- `itoa` uses fuel: its twenty digits are enough for a number of 64 bits.
--
-- Not modelled: the time at which concurrent requests interleave (the driver has one connection,
-- and a method or a request is one step here), the failure of the disk, JSON, HTTP, the rows of
-- the administrator's lists, the agent's processes, and the other languages of the repository.
-- The hash of tokens, the password hash, the cipher and the zone database are parameters
-- (`Config`), and so is what an agent's machine decides (`Host`).
mod Prelude
pub mod Stamp
pub mod Policy
pub mod Db
pub mod Store
pub mod Agent
pub mod Web
pub mod Secrets
pub mod Migrations
mod Tests
