-- ===== src/Lib.antt =====
-- Qodalis CLI server for Node.js: a verification library of its core logic.
--
-- The server runs commands, files, jobs and shells for a web terminal. An Express application
-- (src/create-cli-server.ts) wires services and plugins together: the users plugin (plugins/users)
-- signs users in, keeps their groups and decides by permission strings what a request may do; the
-- jobs plugin (plugins/jobs) runs registered jobs on a schedule and on request; packages/abstractions
-- holds what commands share, among it the splitting of a command line into words. A request passes
-- the gate (src/auth), which asks for the permissions of the command that it names; the registry and
-- the executor (src/services) find the command and run it.
--
-- Files, and the code that they model:
--   Common             names of the libraries, Boolean tests, lists, JavaScript strings and maps
--   ShellWords         packages/abstractions/src/shell-words.ts; RoundTrip proves, Tests runs it
--   Permissions        plugins/users/permissions.ts, and uncoveredPermissions of
--                      plugins/users/security.ts; Matching, Merge and Grants prove
--   RateLimiter        the class of that name in plugins/users/security.ts; Window and Sweep prove
--   Jobs               plugins/jobs/cli-job-scheduler.ts for one registered job, and
--                      plugins/jobs/interval-parser.ts. Registration is the state (JobRegistration,
--                      JobRun, CliJobOptions), Slots the run slots (_tryStart, _startRun,
--                      _releaseSlot, _drainQueue, _cancelAll), Attempts a run with its retries
--                      (_runWithRetriesAsync, _executeAttemptAsync), Timers the schedule, Control the
--                      actions of ICliJobScheduler; Limit and Actions prove
--   Lockout            the lockout of plugins/users/services/auth-service.ts (reserveAttempt,
--                      attemptFailed, attemptSucceeded, isKeyLocked, sweepLockouts); Entries says what
--                      each does to one key, Changes what an event does, Counts and Bound count
--                      attempts, Locked follows a lock
--   Commands           processors, commands and responses (packages/abstractions/src), and
--                      src/services/cli-command-registry.ts; Execution is
--                      src/services/cli-command-executor-service.ts with cli-output-limits.ts, Usage
--                      cli-command-usage-stats.ts, Values findProcessor on the JSON values of a body,
--                      Gate processorPermissions of src/auth/cli-server-auth-gate.ts; Ways says what a
--                      chain of sub-commands means
--   Audit              plugins/audit/in-memory-audit-store.ts; Latest says what it keeps, Order in
--                      which order and pages it is returned, Pruning what prune removes
--   ServerGate         the rest of src/auth/cli-server-auth-gate.ts, with ICliServerAuth of
--                      src/auth/cli-server-auth.ts as a record of operations; Passes proves
--   Files              plugins/filesystem/providers/in-memory-provider.ts: the tree and the paths;
--                      Provider has the operations, Paths the parts of a path, Written what is read
--                      after a write, Untouched what is read elsewhere, Directories what
--                      mkdir makes, Removed what removing and moving leave
--   Users              plugins/users: models.ts, errors.ts and the state of AuthService and of the stores.
--                      Json is the body of a request, Passwords services/password-hasher.ts, Actions the
--                      monad of operations with what they tell the outside, Stores stores/, Validation
--                      the checks of directory-service.ts and permission-validation.ts, Access, Sessions,
--                      Tokens and Tickets services/auth-service.ts, Directory and Groups the rest of
--                      directory-service.ts, Requests the requests of controllers/ that change users and
--                      groups. Laws, Reading and Outside are rules for operations; Changes says what a
--                      directory allows, Admins and Apart what that keeps; Stored, Managing, Membership,
--                      Leaving and SigningIn show that the operations do no more, History puts them
--                      together, and Steps says it without the checks of the code. Authenticated,
--                      Erased, Secrets and SingleUse are about what tokens, deleted users, passwords
--                      and tickets give, SignedIn about what a sign-in leaves; Returning, Refusing and
--                      Refusals about requests that throw; Granted, Entitled and Escalation about the
--                      permissions that a request gives
--
-- How the code is read:
--   A string is the list of its UTF-16 code units (Common/Strings). Case mapping is that of ASCII
--   letters, white space is that of the regular expression \s; other code units have no case.
--   A Map with string keys is an association list in insertion order, with unique keys where a
--   theorem needs them. Numbers are natural numbers: times in milliseconds, counts and limits; the
--   bounds of doubles are not modelled. The clock, random identifiers, the store and the cron parser
--   are arguments: a time is passed to each operation, identifiers come from a counter, the cron
--   parser is a function of the expression and a time. The handler of a command is a function of the
--   command, and what it does to the rest of the server is not followed; the provider of authentication
--   is a record of its operations.
--   A run of a job is cut at its awaits: a phase says what it waits for, and a step takes it to the
--   next wait, in any order. The lockout counts attempts that are in flight in the same way. All
--   other operations are single steps: a request to the directory, a sign-in, a command or a call of
--   a store runs to its end before the next begins, so that what two of them do between their
--   awaits is not interleaved. Loops are structural, but for the decimal text of a number
--   (Users/Decimal), which has the number itself as fuel: a division by ten lowers it.
--
-- Not modelled: the HTTP and WebSocket controllers, the providers that adapt client libraries (SQL,
-- MongoDB, Redis, Elasticsearch, S3, AWS), process and socket I/O, and logging.
pub mod Common
pub mod ShellWords
pub mod Permissions
pub mod RateLimiter
pub mod Lockout
pub mod Commands
pub mod ServerGate
pub mod Audit
pub mod Files
pub mod Jobs
pub mod Users
