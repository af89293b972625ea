-- ===== src/Lib.antt =====
-- dingbap is a file server in one Go program: accounts with a second factor, sessions, a storage
-- folder that every request is resolved under, and public links to what lies in it. This library
-- models its parts, one module each, and proves what makes them correct.
--
-- The parts and their files:
--   * Users (users.go, totp.go): `userStore` is `UserStore`, accounts in memory and the content of
--     `users.json`; `addUser` is `add_user`, and so on. The password functions are the
--     argument `Passwords`, filled by `hashPassword` and `verifyPassword` in Users/Hashing, and the
--     digest of a recovery code is an argument.
--   * Sessions (session.go): `sessionManager` is `SessionManager`, with the table of sessions, the
--     content of `sessions.json` and the failures of each address.
--   * Paths (path.go; pathJoin, pathDir and sanitizeName of handlers.go; isTrashPath of trash.go;
--     uniqueNonEmptyPaths of bulk.go): `resolveUnderRoot` over a `FileSystem`, which answers what the
--     operating system answers: Abs, EvalSymlinks, Lstat and Stat.
--   * Shares (shares.go): `shareStore` is `ShareStore`. `create` is split into the checks that make
--     a share (`draft`) and what happens under the lock (`publish`).
--   * Web (session.go): what a handler reads of a request, and `sameOrigin`.
--   * Program (totp.go, middleware.go, users_admin.go): the state that the handlers share, as
--     `Program`; the pending logins and set-ups (Program/Pending), the two steps of signing in
--     (Program/Login), and the handlers of accounts and of the second factor (Program/Accounts). A
--     handler returns the state and its reply; `Outside` is what it reads of the outside. Program/Calls
--     lists the requests that clients make, in the order in which they are handled.
--   * Access (middleware.go, proxy_auth.go): the session of a request, from the proxy or from the
--     cookie, and the guards.
--   * Cache (cache.go): `listingCache`, for listings of any type. The loop of `set` that evicts takes
--     fuel, one more than there are elements, and each round removes one.
--   * Trash (trash.go): `trashStore`, with the names that lie in `.trash/items`; `Disk` is what the
--     operating system answers during a call.
--   * Atomic (atomic.go): `writeFileAtomic`, as the list of the states it goes through.
--   * Uploads (upload.go): `uploadManager`, with the directories of the sessions on the disk; `Answers`
--     is what the operating system answers during a call. `init` is in Uploads/Start, `writeChunk`,
--     `complete`, `abort` and `status` are in Uploads/Chunks, the handlers in Uploads/Requests. The
--     loops over the indices take as fuel the number of chunks left.
--   * Files (handlers.go, bulk.go): the checks of each handler on its request, as a plan (Files), the
--     change with the shares, the trash and the cache (Files/Changes), the bulk handlers
--     (Files/Bulk), and listings, downloads and previews (Files/Served). `System` is what the
--     operating system answers during a request.
--   * Copies (copy.go): the name of a copy, with fuel for the 10,000 rounds of its loop (Copies), the
--     copy of a tree of files (Copies/Trees), and the handlers (Copies/Requests).
--   * Visits (shares.go): the cookie of a share with a password and the handlers behind a link, as the
--     answer they give (Visits), and the routes with the upload to a drop link (Visits/Routes). The
--     digest and the check of a password are arguments; the content of a listing is left out. What a
--     visit gives away is in Visits/Gate, Visits/Within and Visits/Dropped.
--   * Activity (activity.go): the appended line, the pruning, and the list of the latest entries.
--   * Base, Text and Table hold what the parts share: Boolean tests, lists with a first match, Go's
--     functions on strings, and tables from text to values for Go's maps.
-- A handler signs a user in by `authenticate` and `create` of a session; the handlers of accounts
-- call the user store and then drop the sessions of the account; every handler of files goes
-- through `safe_path`; delete, rename and move tell the share store of the paths that changed.
--
-- Conventions:
--   * A method that locks a store is a function on its state; calls from several goroutines are a
--     list of calls, in the order in which they take the lock.
--   * A handler is a function on the whole state, so it runs from its first call to its last with no
--     other handler in between; what may happen between two calls of one handler is not modelled.
--   * Each reading of the clock is an argument, so that two readings in one method may differ. A time
--     is the number of nanoseconds since Go's zero time, with 0 for the zero time itself.
--   * Each write of a file takes a Boolean, whether it succeeds; a failed write leaves the file as it
--     was, which `writeFileAtomic` (atomic.go) is for. A random token is an `Option`: none where the
--     random source fails.
--   * Text is a list of bytes, and case and space are those of ASCII: Go's `EqualFold`, `ToLower` and
--     `TrimSpace` treat further letters and spaces of Unicode.
--   * A path is the list of its segments below the root of the file system, in the Unix form.
--   * Counters are natural numbers: Go's `int` has 64 bits, and no counter here comes near its end.
--   * A loop over a slice or a map is recursion on a list; the loops of Cache, Uploads and
--     Copies that take fuel are named with these parts.
--
-- Not modelled: the search and the usage of the disk; and, as input and output, the templates and
-- streams of HTTP, JSON, zip and gzip, WebDAV, flags and the start of the server.
pub mod Base
pub mod Text
pub mod Table
pub mod Paths
pub mod Shares
pub mod Users
pub mod Sessions
pub mod Web
pub mod Atomic
pub mod Trash
pub mod Uploads
pub mod Files
pub mod Copies
pub mod Visits
pub mod Activity
pub mod Cache
pub mod Program
pub mod Access
