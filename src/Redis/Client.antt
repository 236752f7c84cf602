-- ===== src/Redis/Client.antt =====
-- The client of github.com/go-redis/redis, a parameter: a command takes the state of the server and
-- returns the new one with the reply.
use jian_yu_server_lib.Base.{Bool, Option, List}
use jian_yu_server_lib.Base.Int.{ℤ}
use jian_yu_server_lib.Strings.{Str}

-- rd.Nil, or another error with its text.
pub data RedisErr : Type 0 where
  redis_nil : RedisErr
  other : Str → RedisErr

-- A value and an error, both of which the client returns.
pub record Reply {ℓ} (A : Type ℓ) : Type ℓ where
  pub value : A
  pub err : Option RedisErr

-- rd.Z, with a float64 from `F`.
pub record Z {ℓ} (F : Type ℓ) : Type ℓ where
  pub score : F
  pub member : Str

-- Durations are in nanoseconds. A list in a reply is none where the client returns nil, and an
-- element of HMGet's reply is none where it is nil.
pub record Client {ℓ} (S F : Type ℓ) : Type ℓ where
  pub ping : S → Reply Str
  pub set : S → Str → Str → ℤ → S × Option RedisErr
  pub get : S → Str → Reply Str
  pub del : S → Str → S × Option RedisErr
  pub set_nx : S → Str → Str → ℤ → S × Reply Bool
  pub eval : S → Str → List Str → List Str → S × Reply ℤ
  pub llen : S → Str → Reply ℤ
  pub lrange : S → Str → ℤ → ℤ → Reply (List Str)
  pub lpop : S → Str → S × Reply Str
  pub lrem : S → Str → ℤ → Str → S × Reply ℤ
  pub ltrim : S → Str → ℤ → ℤ → S × Reply Str
  pub lpush : S → Str → List Str → S × Reply ℤ
  pub blpop : S → ℤ → Str → S × Reply (List Str)
  pub brpop_lpush : S → Str → Str → ℤ → S × Reply Str
  pub smembers : S → Str → Reply (List Str)
  pub sismember : S → Str → Str → Reply Bool
  pub sadd : S → Str → List Str → S × Option RedisErr
  pub srem : S → Str → Str → S × Option RedisErr
  pub hget : S → Str → Str → Reply Str
  pub hmget : S → Str → List Str → Reply (Option (List (Option Str)))
  pub hmset : S → Str → List (Str × Str) → S × Option RedisErr
  pub hgetall : S → Str → Reply (List (Str × Str))
  pub hset : S → Str → Str → Str → S × Option RedisErr
  pub hdel : S → Str → Str → S × Option RedisErr
  pub hincr_by : S → Str → Str → ℤ → S × Reply ℤ
  pub zadd : S → Str → List (Z F) → S × Option RedisErr
  pub zrem : S → Str → List Str → S × Option RedisErr
  pub zrem_range_by_score : S → Str → Str → Str → S × Option RedisErr
  pub expire : S → Str → ℤ → S × Option RedisErr
  pub incr : S → Str → S × Reply ℤ
  pub decr : S → Str → S × Reply ℤ
  pub mset : S → List Str → S × Option RedisErr
  pub keys : S → Str → Reply (List Str)
  pub publish : S → Str → Str → S × Option RedisErr
