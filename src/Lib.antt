-- ===== src/Lib.antt =====
-- The verification library of go-cache: a cache for Go services over interchangeable stores, with
-- signed keys and encrypted entries, an in-memory store with expiry, connections to Redis, and a
-- page cache for gin. Paths are from the repository's root.
--
-- Parts. A GenericCache (generic.go) holds an opaque store and hands it entries; with EncryptData
-- on, Set encrypts the data of an entry and Get decrypts them, by the padding of pkcs.go and AES
-- in CBC mode under a key that is derived from the shared secret. The store is an in-memory one
-- (inmemory.go), an LRU cache of a library with times of expiry and a sweep, or a Redis store of
-- the persistence package, for which redispool.go makes the connections. The page cache
-- (galapagos_gin/cache/cache.go) puts the responses of a handler into a store and replays them.
--
-- Files. Padding: Padding and Unpadding of pkcs.go. Secret: keyAndIV, whose two results are slices
-- of one buffer. Cipher: encryptByteArray and decryptByteArray. Clock: the times of package time
-- that are used, with their wrap-around. Value: Go's interface{} with the types that the program
-- tells apart, and Expired. Generic: the cache, its constructors, NewGenericCacheEntry,
-- encryptEntry and decryptEntry; Generic/Writes and Generic/Reads: its methods; Generic/Methods:
-- the methods as requests, over a store that counts its calls. Keys: entrySignature and GetKey.
-- InMemory: the methods of InMemoryStore and DeleteExpired; InMemory/Calls: the methods as
-- requests in goroutines; InMemory/Reference: the reference definition of the methods that name a
-- key. Janitor: NewInMemoryStore, Run, stopJanitor and runJanitor. Store: the CacheStore
-- interface; Store/Local: the in-memory store as one, and Store/Existing: AddExistingEntry over
-- it; Store/Refines: a GenericCache over it that does not encrypt, call by call; Store/Pages:
-- CachePage with a GenericCache over it. Metrics: the collectors of metrics.go, and
-- NewInMemoryStore with its gauge; Metrics/Counts: the calls that count and observe. Redis: the
-- Dial and TestOnBorrow callbacks of NewSentinelPool and InitReadOnlyRedisCache, with its times;
-- Redis/Stores: RedisConnectionInfo.New, InitRedisCache and testCache. Page: urlEscape,
-- cachedWriter, SiteCache and CachePage; Page/Atomic: CachePageAtomic, and CachePage as code that
-- calls the store one call at a time; Page/Rendered: pages whose status goes past the caching
-- writer; Page/Traced: the spans of CachePage and the middleware Cache. Generic/AsStore: a
-- GenericCache in the place of a store. Suite: the tests of generic_test_store.go, as programs
-- over a store; Suite/Cached: those of a GenericCache. Example: the handlers of example/example.go
-- that answer with an entry; Example/Setup: its init; Example/Routes: its routes. Prelude, Outcome
-- and Word are what they share: lists, integers, panics, 64-bit arithmetic. Tests holds concrete
-- inputs.
--
-- How code is modelled. A pure function is a function; a panic is an outcome beside a result, and
-- an error is a value. A method of InMemoryStore is a tree of calls of the LRU library (Lru.Prog):
-- run carries it out alone, and Lru/Threads steps several of them in any order, call by call, as
-- goroutines do, since each call of the library takes its own lock. Page/Atomic steps requests for
-- pages in the same way, each by one call of the store at a time, under a mutex. The janitor is a
-- relation of steps between states of its goroutine, its channel and its finalizer. Code that
-- calls a store is a function from what all stores hold to an outcome and what they hold then. A
-- pointer that Get writes through is given by its type, and what it points to before.
--
-- Parameters. The LRU library (lru.ARCCache) is a record of operations with the laws that its
-- documentation states: what is added and not evicted is found, what is removed is not, a purge
-- leaves nothing. Lru/Recent fills it. The block cipher of AES is a function with its inverse;
-- HMAC-SHA256, the gob codec, SHA-1, url.Parse and the Redis servers are functions. The registry
-- of prometheus is a record whose laws say that it collects what it accepts and refuses a name
-- that is taken; the writer of gin is a record without laws, and what Context.String does to its
-- writer is a list of its operations. The tracer of opentracing gives the context of a span, and a
-- context of gin holds what was set in it. The store of a cache is the record CacheStore. The
-- clock is an argument of each call that reads it.
--
-- Bounds. An int and an int64 are integers with sums, differences and products reduced to 64 bits,
-- a uint64 a number below 2^64. A sane clock reads a time before 2^62 seconds. All loops are over
-- lists or a count that the source fixes, so that no fuel is needed; the blocks of CBC are counted
-- by the length of the data.
--
-- Not modelled: logging; the registration of types with gob; the middleware of the router of the
-- example service; and vendored code.
pub mod Prelude
pub mod Word
pub mod Outcome
pub mod Padding
pub mod Secret
pub mod Cipher
pub mod Clock
pub mod Error
pub mod Value
pub mod Lru
pub mod InMemory
pub mod Store
pub mod Generic
pub mod Keys
pub mod Janitor
pub mod Metrics
pub mod Page
pub mod Redis
pub mod Suite
pub mod Example
mod Tests
