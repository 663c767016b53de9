-- ===== src/Lib.antt =====
-- mcp_bridge, a server of the Model Context Protocol: users with bearer tokens call tools over
-- JSON-RPC, under a rate limit and in sessions, and some tools obtain privileges by grants and run
-- jobs by cron. The development models the core of the daemon as functions, and proves what makes
-- it correct.
--
-- The parts, and how they interact:
--
-- * Server (src/core/server.cpp) is the endpoint. A request passes the check of its address, then
--   Auth, RateLimiter, the JSON parser, JsonRpc and Session, in this order, and reaches the
--   Router. The handlers are chains of steps in a small monad: each reads and writes the state of
--   the server, and goes on or stops with a response.
-- * Auth (src/core/auth.cpp) takes the token of a header to an identity, with Crypto
--   (src/core/crypto.cpp: SHA-256, hexadecimal text, comparison in constant time) and UserStore
--   (src/core/user_store.cpp).
-- * RateLimiter (src/core/rate_limiter.cpp) and Session (src/core/session.cpp) keep a map each,
--   with a collection of idle entries.
-- * JsonRpc (src/core/jsonrpc.cpp) parses envelopes. Router (src/core/mcp_router.cpp) has the
--   methods, and runs the tools of Registry (src/registry/tool_registry.cpp).
-- * CronStore (src/core/cron_store.cpp) keeps the cron jobs of all users: CronSyntax has the
--   checks of identifiers and schedules, CronFile the file, CronStore the operations. Schtasks
--   (src/tools/scheduling/cron_to_schtasks.cpp) translates a schedule for Windows.
-- * CronTools (src/tools/scheduling/cron_ops.cpp) has the tools on that store, with the processes
--   of src/tools/scheduling/cron_backend_linux.cpp that install a crontab; Crontab, of the same
--   file, builds its text, which Crontab.Lines and Crontab.Entries specify apart from the loops.
--   What the tools do is a relation of steps, Reaches of CronTools.Steps.
-- * GrantTemplate (src/core/grant_template.cpp) renders and checks lines for sudoers, and
--   GrantRecord, of the same file, the records for the helper on Windows.
-- * Grants (src/core/grants.cpp) keeps the table of time-limited grants: Operations has requests,
--   revocations, sweeps and the reconciliation at the start, Loads the reading of its file. It
--   knows the helper as the interface PrivHelper, a record of two commands and their laws, also of
--   a run that a signal cuts short; Requests, Sweeps, Startup and Lifetime prove with these laws, and Privileged fills them with
--   the commands of Priv.
-- * Priv (src/priv/main.c) is that helper, a setuid program: Spec has its check of lines, Sudoers
--   the commands on /etc/sudoers.d, Accounts those on accounts, States those on the directories of
--   users, Main the gate of privileges and the table of commands. Its state is a machine: the
--   files, the accounts and the directories that it changes. Base64 has the encoder of the daemon
--   (src/core/runtime_sync.cpp, src/tools/scheduling/cron_backend_linux.cpp) and its decoder.
-- * UserTools (src/tools/admin/user_ops.cpp) has the tools that create, change and delete users:
--   the files of the users directory, and the index of UserStore that they load again.
-- * Shortid (src/core/shortid.cpp) makes identifiers and tokens from random bytes.
-- * Base, Bits, Map and Json are shared: lists, tests, texts and integers; the laws of bitwise
--   operations; the maps of the source with their laws; the values of JSON.
--
-- A function of the source keeps its name; the comment at the top of a file says which code it is
-- about, and Tests modules run definitions at concrete inputs. Methods take their object as an
-- argument and return it changed. An exception is a constructor of the result type. A std::string
-- is the list of its bytes. Words of 32 bits are natural numbers with the remainder written out;
-- times are natural numbers of ticks; the integers of JSON are unbounded.
--
-- What is not under src/ of the program or is a vendored library is an argument: clocks, random
-- bytes, what a directory or a file holds, the outcome of a write, the JSON printer and parser,
-- the regular expressions, the handlers of the tools, visudo, and what each system call of the
-- helper answers, in the records Answers, Staging and Attempt of Priv. CronStore.Restart takes it
-- that the parser reads back what the printer printed, and Grants.Lifetime that the names of a
-- directory are those of its files.
--
-- Every loop of the modelled code is recursion on its data or on the attempts that the source
-- counts (four in CronStore.allocate, sixty in useradd and in the wait for its lock), but for the
-- loops over `write`, which have the number of bytes to write as their fuel: each call writes a
-- byte at least or fails, so this is enough, as Priv.Writes proves.
--
-- Not modelled: the HTTP library, threads and locks (each operation is one step), logging, the
-- command line, the helper on Windows, the configuration file, the tools other than those of cron
-- and of users, and the platform layer. Json keeps the fields of an object in the order in which
-- they were set, and Map the order of insertion: the orders of the source's containers are not
-- promised, and no theorem depends on them.
pub mod Base
pub mod Bits
pub mod Map
pub mod Crypto
pub mod Json
pub mod JsonRpc
pub mod RateLimiter
pub mod Session
pub mod UserStore
pub mod UserTools
pub mod Auth
pub mod Registry
pub mod Router
pub mod Server
pub mod CronSyntax
pub mod CronStore
pub mod CronFile
pub mod GrantTemplate
pub mod Schtasks
pub mod Shortid
pub mod GrantRecord
pub mod Base64
pub mod Priv
pub mod Grants
pub mod Crontab
pub mod CronTools
