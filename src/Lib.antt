-- ===== src/Lib.antt =====
-- A model of laneq, a queue of directives in one SQLite database that several workers share.
--
-- The program. Every call of the library opens a connection, which prepares the schema, runs its
-- statements and closes it; the state between two calls is the database. A worker claims a
-- directive by `take`, which gives it a fresh claim token and a lease, and settles it by
-- `set_status`, `defer` or `park` under that token while the lease runs. Calls first reclaim the
-- leases that have passed and promote the deferred directives that are ready. A directive is
-- ordinary (policy "requeue": a passed lease makes it pending again) or protected (policy "hold": it
-- stays taken); a protected one is finished by `complete` alone, which publishes its successors and
-- seals a receipt in one transaction.
--
-- The model. A call is an `Action`: a function from the database (`Db`) to a result and a database.
-- The result is a value or the class of the exception, without its message. A `Db` is the committed
-- state: `or_rollback` undoes a transaction that raises. SQLite runs one writing call at a time, so
-- that concurrent workers are a list of calls, each with surroundings (`Env`) of its own: an
-- arbitrary clock, read at the indices in the order of the readings of the call, the token that
-- `uuid4` makes, SHA-256, the product of a float and a number, which may raise, and the default
-- lease. A text is the list of its code points, and a time is compared as the text that `strftime`
-- prints, as the code does; a lease or a delay that ends behind the year 9999 raises OverflowError.
--
-- The files, with the code that they model:
--   Text, Clock        the str, datetime and time helpers of src/laneq/cli.py: `first_line`,
--                      `utc_now`, `utc_after`, `parse_time`, `parse_duration`
--   Sql                SELECT, UPDATE, ORDER BY and COUNT on lists of rows
--   Database           the tables of src/laneq/cli.py and src/laneq/root_reservations.py; `connect`
--   Action             transactions; Action.Keeps and Action.Returns are the rules for proofs
--   Leases             src/laneq/cli.py: `release_or_hold`, `reclaim_expired_leases`,
--                      `reclaim_deferred`, `reap_stale`, `dependencies_satisfied`
--   Dependencies       src/laneq/cli.py: `parse_dependency_ids`, `format_dependency_ids`
--   Core               src/laneq/core.py: Core.Guard has the shared checks, Core.Enqueue `push` and
--                      `reprioritize`, Core.Claim `take`, `peek` and `touch`, Core.Settle
--                      `set_status`, `defer`, `park`, `unpark` and `reap`, Core.Calls all of them as
--                      one type of calls; the other modules below Core are proofs
--   Threads            src/laneq/cli.py: `ancestors`, `descendants` and `thread_rows`
--   Reports            src/laneq/core.py: `show`, `listing`, `thread_status`, and `stats` in
--                      Reports.Stats
--   Contract           src/laneq/handoff_contract.py, with the canonical JSON in Contract.Json
--   Stage              src/laneq/stage_admission.py
--   Handoff            src/laneq/handoff.py
--   Reservations       src/laneq/reservation_contract.py, and `admit` of
--                      src/laneq/root_reservations.py in Reservations.Roots
--   Inspection         src/laneq/root_inspection.py
--   Bridge             src/laneq/stage_bridge.py
--   Auth               src/laneq/auth.py: the checks of grants and proofs, the replay cache
--   Interceptor        src/laneq/grpc_auth.py: what the server does with each call, by its mode, and
--                      `build_interceptor_from_env`
--   Migration          src/laneq/cli.py: `migration_plan`, `handoff_migration` and `migrate`, on a
--                      schema of any version
--   Backup             src/laneq/cli.py: `make_backup_path`, `prune_old_backups`, `backup_database`
--   Ints               Python's `int` and `str` on decimal digits
--   Server             src/laneq/grpc_server.py: the maps, the messages and the replies; Server.Rpc
--                      has the handlers
--   Tests              runs on sample data, and an instance of every theorem with hypotheses
--
-- Choices. `blocked_by` is a list of ids in place of its text, and a receipt a value in place of its
-- JSON; a status is one of the six that the code writes. A loop over rows is structural recursion.
-- Six functions have fuel. `root_from` and `walk_up` have the id of the directive, or one more, and a
-- parent has a smaller id; `walk_down` has the number of its rounds, `rounds`, down to a depth of as
-- many directives as there are ids: that these three end by themselves is proved.
-- `year_from` counts the years of one cycle of 400 from its days, which are fewer than those of 400
-- years; `decimal` divides by ten with the number itself as fuel, and `next_free` tries one name
-- more than there are files, of which one is free. A dict is a list of its entries; of two entries
-- with one key the first counts.
--
-- Authentication takes from outside what pyseto, `json.loads` and the file system do: `Outside` and
-- `Files` hold these functions. Times of claims are whole numbers of ticks, so many to the second
-- that every float is one; the difference of two times is taken exactly, where Python rounds it.
-- The request is served in one step after its check. A message of the server has its numbers
-- without the bounds of int32 and int64, which protobuf checks; a call of a handler that makes two
-- calls of core.py has surroundings for each.
--
-- Not modelled: what SQLite copies into a backup, the retries of src/laneq/sqlite_init.py, the
-- delivery records of root_reservations.py with the parser of stored JSON, the two calls of the gRPC
-- server that parse and print JSON, the admission bridge, the command line and the MCP server.
pub mod Common
pub mod Text
pub mod Clock
pub mod Sql
pub mod Database
pub mod Action
pub mod Leases
pub mod Dependencies
pub mod Core
pub mod Threads
pub mod Reports
pub mod Ints
pub mod Auth
pub mod Interceptor
pub mod Server
pub mod Inspection
pub mod Migration
pub mod Backup
pub mod Contract
pub mod Stage
pub mod Handoff
pub mod Reservations
pub mod Bridge
pub mod Tests
