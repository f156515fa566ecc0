-- ===== src/Lib.antt =====
-- A model of Bartimaeus_app: a web application behind a screening router and a reverse proxy.
--
-- Packets from outside reach ScreeningRouter/main.cpp, which filters them, translates the addresses
-- and sends them to the DMZ, and brings the replies back. The application, src/main.cpp, answers
-- HTTPS requests: a handler before the routing guards the pages, and each route goes through
-- src/middleware.hpp to one of the two controllers, which use the session store, the login limiter
-- and the database services.
--
-- Files, with paths from the repository's root:
--   Base                what the parts share: lists over the native numbers, texts as bytes,
--                       std::unordered_map as an association list, the int of C++
--   Clock, Hex          a clock that counts nanoseconds; the hexadecimal print of random bytes
--   Helpers             src/helpers.hpp: Cookie and Trim (getCookieValue), Placeholder
--                       (replacePlaceholder), Json (escapeJson), Html (htmlEscape), Number
--                       (safeStoi), Password (the password hashes); Search has the std::string
--                       searches that they use
--   Session             src/services/session_manager.hpp; View says what callers see of the store,
--                       History compares any sequence of calls with an abstract table
--   Limiter             src/services/login_limiter.hpp; Lockout is about when a user is locked out,
--                       Cleanup about the entries that the limiter drops
--   Router              ScreeningRouter/main.cpp: Acl (evaluate_acl and the rule table), Checksum
--                       (calculate_checksum), Memory (the packet buffer), Transport (the TCP and UDP
--                       checksums), Segment (what their update leaves in the buffer), Pipeline (both halves of the event loop), Kernel (the interface
--                       of the kernel), Arp (resolve_arp_mac and get_interface_mac), StartUp (main
--                       before its loop), History (any sequence of its steps, and of its rounds); the other
--                       modules hold the proofs
--   Web                 src/middleware.hpp, src/controllers/ and the routes of src/main.cpp: Http and
--                       Services are the interfaces, Middleware, AuthController, BoardController and
--                       Routes the code; Access, Granted, Rights, Login and Pages hold the proofs. Errors is
--                       the error handler and the exception handler of src/main.cpp with the log
--                       and the page that they read, Collector its thread, Server the rest of main. Conservation is about what every handler keeps, Backend about
--                       the handlers with AuthService and BoardService behind them, History about
--                       any sequence of requests, page requests and sweeps on the shared stores
--   DbManager           src/services/db_manager.hpp; Start is about the construction of the pool,
--                       Threads about any interleaving of the threads with the healer, Healing
--                       about the healer on its own, Connect about settings, a new connection and
--                       the end of the pool
--   Queries             the SQL texts of src/db_queries.hpp that the services use
--   Mysql               the client library of MySQL, an interface
--   Database            what the two services share: a borrowed connection, a statement, rows;
--                       Protocol has assertions on what is open, with a rule for each step, Placeholders
--                       counts the parameters of each text, Cursor is about the loop over the rows,
--                       Executed about what a success means
--   AuthService         src/services/auth_service.hpp; Protocol and Leaves are about what its
--                       methods leave open, Login and SignUp about what a success means, RoundTrip
--                       about a login after a sign-up
--   BoardService        src/services/board_service.hpp; Protocol, Posts and Results likewise
--   ReverseProxy        ReverseProxy/main.cpp, with main in Server; Relay and Accepted hold the
--                       proofs
--   Tests               runs of the theorems at concrete inputs
--
-- State is passed along: a method takes the object and returns it changed. Objects with a mutex are
-- modelled one method at a time. Readings of the clock and random bytes are arguments. The
-- controllers use the database services as records of functions on a state of their own, so that
-- what is shown of them holds for every database; the services of src/services/ are such records,
-- over the client library of MySQL, which is in turn a record of functions. Calls of the kernel, of
-- Argon2 and of SHA-256 are parameters in the same way. What a theorem relies on of one of them is
-- a hypothesis with a name of its own. An exception and a failure of RAND_bytes are
-- values.
--
-- The services keep a ghost beside their state: the phase of the protocol of connections and
-- statements, which turns to `undefined` at a call on something that is not open or out of its
-- order, at parameters that are not as many as the text's question marks, and at a read behind an
-- array. The start of the router keeps the list of the open sockets in the same way.
--
-- Fuel: the loops of getCookieValue and replacePlaceholder, the fold of the checksum's carries,
-- the construction of the connection pool, the healer's loop, the loops over the rows of a result
-- and the collector's loop run on fuel, and so does the loop of the reverse proxy, which serves
-- until a call of accept fails. The fuel of a loop over rows is one more than the number of rows
-- that are left, and the collector's is one more than the number of the query that is answered by
-- a stop request. Each is given enough, and its result is shown to be there. An access outside the
-- router's arrays is a result of its own, `fault`, where the model stops.
--
-- Not modelled: TLS, the print of the time, and log lines, but for those of the error log; what a
-- SQL text means, and the texts that nothing uses; the front end and the vendored libraries.
pub mod Base
pub mod Clock
pub mod DbManager
pub mod Queries
pub mod Mysql
pub mod Database
pub mod AuthService
pub mod BoardService
pub mod Hex
pub mod Helpers
pub mod Session
pub mod Limiter
pub mod ReverseProxy
pub mod Router
pub mod Web
pub mod Tests
