-- ===== src/Lib.antt =====
-- JianYuServerLib, the library that the JianYu servers share: a client of the WuKongIM server, the
-- messages sent through it, HTTP middleware, sequence numbers, ids, and small concurrent parts.
--
-- A server makes one Context (config/context.go). Its handlers run behind the middleware of
-- pkg/wkhttp, take numbers from GenSeq, and send messages and requests to the IM server by the
-- functions of config/msg*.go, all of which end in one HTTP request (pkg/network). The parts of
-- pkg/keylock, pkg/pool and pkg/wait stand by themselves.
--
-- Files, and the code that they model:
--   Base, Strings: the language and its standard library: Go strings as bytes, strings.Split,
--     strconv.ParseInt and ParseUint, fmt's decimal numbers, and calls that may panic (Base/Outcome).
--   Channel: common/msg.go (GetFakeChannelIDWith, IsFakeChannel, GetToChannelIDWithFakeChannelID),
--     pkg/util/hash.go with the CRC-32 written out, and of config/config.go the customer service ids
--     and the bucketed paths. FakeId and Service have their properties.
--   Seq: config/seq.go. A call of GenSeq is a program counter (Pc) that `step` moves from one access
--     of the shared state to the next; `gen_seq` runs one call alone. Ordered has what one node
--     gives out over time, Race two calls at once. The table's row outlives restarts.
--   Config: config/config.go. Types and its parts are the structs, Defaults is New, Configure with Plain,
--     PlainServices, Urls and Log is ConfigureWithViper, one function for each group of settings. Viper
--     is a record of its getters, without laws; Env has the environment. Numbers and durations are
--     integers. Again, Unset and Fallbacks have the properties.
--   Redis: pkg/redis/redis.go. The client of go-redis is the record Client, from states of the server;
--     Keys has what redis documents of keys with strings, and Timed of the time that they live; Memory
--     and Clocked are servers that keep it. Locks and Hashes have the properties. Of a key with an
--     expiry Keys speaks for the moment after a command only.
--   Cache: pkg/cache/cache.go and common/cache.go. Laws has what both caches promise for the moment
--     after a call, Timed what they promise of the time after it, and calls with time between them.
--     Refines has
--     the two caches with time; Sessions and Lifetime have the middleware of Http on such a cache.
--   Http: pkg/wkhttp/http.go. A middleware returns its decision; the cache is a function. Context has
--     what a handler reads and answers, Pooled the contexts that handlers take from a sync.Pool, as
--     addresses of a heap.
--   Im: config/msg.go, config/msg_group.go, config/msg_channel.go, config/msg_rtc.go,
--     config/stream.go and the content types of common/msg.go. A request body and a response are
--     JSON values (Im/Json), the IM server with the HTTP library is a function from a path and a body
--     to a response, none for a transport error (Im/Client), which also carries what gjson reads in
--     it; Go errors are ImError. Each Send* and IM* function has a definition of its name: Im/Send,
--     Im/Send/Rtc, Im/Admin, Im/Group, Im/Group/Notice. Im/Message is a message that the IM server
--     delivers. That a JSON value fits the Go struct it is decoded into is not modelled.
--   KeyLock: pkg/keylock/keylock.go. Each section that the map's lock guards is a function; `turn`
--     (Threads) is the next section of a thread, and Step lets any thread or the cleaner go on.
--     Counts are int64 by their bits, inner locks are objects that the map and threads share.
--   Pool: pkg/pool/queue.go, pkg/pool/dispatcher.go, pkg/pool/worker.go. The ring buffer of
--     github.com/eapache/queue is the record Buffer, the goroutine pool of github.com/panjf2000/ants
--     the record Ants. Reaches (Dispatcher) is any order of what happens in a dispatcher; a worker is
--     a machine that the events at its channels move on.
--   Wait: pkg/wait/wait.go, the 64 shards as a function from indexes to maps.
--   Tx: pkg/zdb/zdb.go, tx_manager.go and the parts of db.go and db_manager.go that they use. gorm is
--     the record Gorm, with no laws; *DB objects are numbers into a memory. Ending has the end of a
--     transaction, Orm what NewOrm binds to it, Chain the query builder, on gorm's methods as the
--     record Queries.
--   Modules: pkg/register/register.go and module/module.go. A module's functions are given by what a
--     call of them comes to; a run of Start or Stop is the list of its calls.
--   Listeners: the listeners that config/context.go keeps; Sessions has what a Context makes on first
--     use.
--   Aes: pkg/util/aes.go and pkg/util/crypt/aes.go. The cipher is the record Cbc, base64 the record
--     Base64, each with what is documented of it.
--   Util: pkg/util/base62.go, pkg/util/sign.go, pkg/util/page.go, pkg/util/common.go (Query, Substr),
--     pkg/util/ip.go (Ip, Addresses) and pkg/util/string.go (Repeated, Underscore, Names, Random). A map
--     is its entries in the order in which Go visits them; random draws are a function.
--   Common: common/constant.go and common/page.go. Each group of constants is a data type with the
--     function that gives their values.
--   Network: the functions of pkg/network/network.go that post a form, on an HTTP client as a record.
--
-- Bounds and fuel: Ten2Hex runs on fuel, one more than the number, which is enough since each turn
-- divides it by 62 (Util/Base62 shows that any fuel above the number gives the same text); a decimal
-- text is made likewise. Numbers of GenSeq are int64 with their wrap-around (Base/Int64).
--
-- Not modelled: the database behind gorm, redis and go-redis behind their wrappers, gin; sending
-- requests; logging; generated code (pkg/wkhook); and the copies of other projects in
-- pkg/errors, pkg/encoding, pkg/zconfig, pkg/internal, pkg/util/decimal.go and pkg/util/uuid.go.
pub mod Base
pub mod Strings
pub mod Config
pub mod Redis
pub mod Cache
pub mod Channel
pub mod Seq
pub mod Http
pub mod Im
pub mod KeyLock
pub mod Pool
pub mod Wait
pub mod Tx
pub mod Modules
pub mod Listeners
pub mod Aes
pub mod Util
pub mod Common
pub mod Network
