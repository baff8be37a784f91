-- ===== src/Lib.antt =====
-- Verification of ttw, a C++ server library: timers, an epoll loop that runs coroutines, JSON,
-- and HTTP messages, sessions and servlets.
--
-- Parts and files:
--   Timer (ttw/timer.h, ttw/timer.cc): Timer::Comp is `comp`, each method of TimerManage the
--     function of its name in snake case. A Timer::ptr is an address of a heap of timers, 0 the
--     null pointer, and the std::set is the list of its elements in order. Order, Set, Manage,
--     Expire, Rearm, Wait and Reach prove.
--   Io (ttw/ioscheduler.h, ttw/ioscheduler.cc, and add of ttw/corscheduler.cc): the contexts of
--     the descriptors, the event counter and the loop of wait. The scheduler holds a TimerManage
--     and calls its getNextTimer and listExpiredCbs. Events, Count, Untimed, Cancel, Ready,
--     Stale, Round and Reach prove.
--   Sockets (ttw/socket.h, ttw/socket.cc, ttw/tcpserver.h, ttw/tcpserver.cc): Socket, with the
--     branch for EWOULDBLOCK of its loops as `wait_for` on the state of Io, and in Server the
--     class TcpServer. Waits, Transfers, Accepting, Invariant and Handed prove.
--   Addresses (ttw/address.h, ttw/address.cc, ttw/swapendian.h): IPv4Address. Swaps proves.
--   Files (ttw/file/file.h, ttw/file/file.cc): types by name, lists below a directory. Types and
--     Trees prove.
--   Loads (ttw/http/http_load.h, ttw/http/http_load.cc): LoadFile, which joins Files, FileCaches
--     and Servlets. Served proves.
--   Json (ttw/json): Value and Print model JsonElement and its toString, Reader the class Reader
--     with its tokens in Reader/Tokens; the switch of parser is `handle_token`. Objects,
--     Reader/Scanning, Lengths, Numbers, Digits, Progress, Total and RoundTrip prove; RoundTrip
--     has the round trip of toString and parser.
--   Sessions (ttw/http/http_sessiondata.h, ttw/http/http_sessiondata.cc): SessionData and
--     SessionDataMan. Data, Manage and Sweep prove.
--   Servlets (ttw/http/servlet.h, ttw/http/servlet.cc): ServletDispatch; its handle is
--     `dispatch_request`. Dispatch and Globs prove.
--   Messages (ttw/http/http.h, ttw/http/http.cc): HttpMsg, HttpRequest, HttpResponse, and the
--     texts of methods and statuses in Names. Headers, Query and Names prove.
--   FileCaches (ttw/file/filecache.h, ttw/file/filecache.cc): FileCache, LRUCache and, in Man,
--     FileCacheMan. A Node* is an address and the fields of the nodes are functions of it; a use
--     of a null or deleted node is a fault. Chains, Moves, Touch, Evict, Insert, Added, Used,
--     Renewed and Lru prove what one getFileCache does, Runs what a run of calls does, against
--     the caches of Recent; Clears is about clear.
--   HttpParser (ttw/http/http_parser.h, ttw/http/http_parser.cc): the parsers with their
--     callbacks, as the events of a run of a machine. Versions and Fields prove.
--   HttpSession (ttw/http/http_session.h, ttw/http/http_session.cc, ttw/http/httpserver.cc):
--     recvRequest with recvlen, sendResponse with sendlen, and handClient, which calls the
--     ServletDispatch. Transfers, Bodies, Rounds and Serving prove.
--   Log (ttw/log.h, ttw/log.cc): LogLevel, Layout with explain and the formats and, in Loggers,
--     Logger, the appenders and LogManage. An appender is an address of a heap, its stream the
--     text that it has written. Patterns, Appenders and Laid prove.
--   Schedule (ttw/corscheduler.h, ttw/corscheduler.cc, ttw/coroutine.h, ttw/coroutine.cc): the
--     rounds of CorScheduler::run, in which a coroutine runs its turn; the turn is a parameter.
--     Picks and Fair prove.
--   Config (ttw/config.h, ttw/config.cc): loadMap on the JSON elements of Json. Entries proves.
--   Prelude: shared names, lists, machine words, dictionaries, texts.
--
-- Conventions: the clock, the addresses that new returns, the result of each epoll_ctl and what
-- epoll_wait reports are arguments; stod, fnmatch, any_cast, Time2Str what a File reads,
-- lexical_cast, atoi, inet_pton, the socket of HttpSession and the Ragel machines are parameters.
-- A method that holds a lock is one step; where a method takes its lock more than once, each part
-- is a definition that can start from any state: `collect` is the part of listExpiredCbs under
-- the second lock, `reset_erase` and `add_ptr` are those of resetTimer, and `overtimes` and
-- `del_all` those of the timer of SessionDataMan. uint64_t sums and differences wrap at 2^64; the
-- event counter is an integer without bound. A std::map or std::unordered_map is a list of pairs.
-- A loop over a container is a recursion on a list. The loop of parser runs on fuel, two more
-- than the bytes of the text; the loop of scan on one more than the bytes left, and a number is
-- printed on fuel one more than itself.
--
-- The loop of recvRequest runs on fuel, one more than the bytes that the socket is to give;
-- recvlen and sendlen on their number of bytes; the loop of explain on the length of the pattern.
--
-- The loops of Socket recurse on the list of what the calls of the system give; where the list
-- ends they are still in the loop. A wait holds what happens until the coroutine goes on.
--
-- Not modelled: what system calls do beyond their results, the Ragel parsers, the database
-- clients, threads, and the calls that change files.
pub mod Addresses
pub mod Config
pub mod FileCaches
pub mod Files
pub mod HttpParser
pub mod HttpSession
pub mod Io
pub mod Json
pub mod Loads
pub mod Log
pub mod Messages
pub mod Prelude
pub mod Schedule
pub mod Servlets
pub mod Sessions
pub mod Sockets
pub mod Timer
