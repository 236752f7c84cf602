-- ===== src/Cache.antt =====
-- pkg/cache/cache.go, the interface of a cache, and common/cache.go with its two implementations: one
-- on redis, one in memory, whose functions each run under its lock.
pub mod Laws
pub mod Timed
pub mod Refines
pub mod Sessions
pub mod Lifetime
mod Tests
use jian_yu_server_lib.Base.{Option, none, some, [], if◌then◌else◌}
use jian_yu_server_lib.Base.Int.{ℤ}
use jian_yu_server_lib.Strings.{Str, str_eq}
use jian_yu_server_lib.Redis.Client.{Client, RedisErr, Reply}
use jian_yu_server_lib.Redis.Conn

-- The interface Cache, on states `C`.
pub record Cache {ℓ} (C : Type ℓ) : Type ℓ where
  pub set : C → Str → Str → C × Option RedisErr
  pub delete : C → Str → C × Option RedisErr
  pub set_and_expire : C → Str → Str → ℤ → C × Option RedisErr
  pub get : C → Str → Reply Str

-- The map of MemoryCache, none for a key that it lacks.
abbrev pub CacheMap : Type 0
CacheMap = Str → Option Str

-- NewMemoryCache
abbrev pub new_memory_cache : CacheMap
new_memory_cache key = none

abbrev pub put : CacheMap → Str → Option Str → CacheMap
put m key v k = if str_eq k key then v else m k

-- MemoryCache; SetAndExpire keeps no time.
abbrev pub memory_cache : Cache CacheMap
memory_cache = record {
  set = λ m key value. (put m key (some value), none);
  delete = λ m key. (put m key none, none);
  set_and_expire = λ m key value expire. (put m key (some value), none);
  get = λ m key. record { value = elim (m key) [ none ↦ [] | some v ↦ v ]; err = none };
}

-- RedisCache
abbrev pub redis_cache {ℓ} : {S F : Type ℓ} → Client S F → Cache S
redis_cache client = record {
  set = Conn.set client;
  delete = Conn.del client;
  set_and_expire = Conn.set_and_expire client;
  get = Conn.get_string client;
}
