-- ===== src/Redis/Collections.antt =====
-- pkg/redis/redis.go: the commands on lists, sets and sorted sets.
use jian_yu_server_lib.Base.{ℕ, Option, none, some, List, [], ◌∷◌, get_elem?, if◌then◌else◌}
use jian_yu_server_lib.Base.Int.{ℤ, pos}
use jian_yu_server_lib.Base.Outcome.{Outcome, returned, panicked, ◌>>=◌, index}
use jian_yu_server_lib.Strings.{Str}
use package.jian_yu_server_lib.Redis.Client.{Client, RedisErr, Reply, Z}
use package.jian_yu_server_lib.Redis.Conn.{or_zero, or_zero_value}

-- An argument of ZAdd: a float64, or another value, which the client writes as a text.
pub data Arg {ℓ} (F : Type ℓ) : Type ℓ where
  float : F → Arg F
  text : Str → Arg F

-- `x.(float64)`
unfoldable pub float_of {ℓ} : {F : Type ℓ} → Arg F → Outcome F
float_of (float f) = returned f
float_of (text s) = panicked

-- One turn of the loop of ZAdd, which reads the first two arguments every time; `write` is the
-- client's text of a float.
unfoldable pub z_of {ℓ} : {F : Type ℓ} → (F → Str) → List (Arg F) → Outcome (Z F)
unfolding float_of
z_of write args = index args 0 >>= λ first. float_of first >>= λ score. index args 1 >>= λ second.
    returned (record { score = score; member = elim second [ float f ↦ write f | text s ↦ s ] })

-- The loop of ZAdd: a turn for every second argument.
unfoldable pub zs_of {ℓ} :
    {F : Type ℓ} → (F → Str) → List (Arg F) → List (Arg F) → Outcome (List (Z F))
unfolding z_of
zs_of write args [] = returned []
zs_of write args (a ∷ []) = z_of write args >>= λ z. returned (z ∷ [])
zs_of write args (a ∷ b ∷ rest) =
    z_of write args >>= λ z. zs_of write args rest >>= λ zs. returned (z ∷ zs)

module _ {ℓ} {S F : Type ℓ} (client : Client S F) where
  -- Llen
  unfoldable pub llen : S → Str → Reply ℤ
  unfolding or_zero
  llen s key = or_zero (pos 0) (client.llen s key)

  -- Lrange, the empty list for nil.
  unfoldable pub lrange : S → Str → ℤ → ℤ → Reply (List Str)
  unfolding or_zero
  lrange s key start stop = or_zero [] (client.lrange s key start stop)

  -- Lpop
  unfoldable pub lpop : S → Str → S × Reply Str
  unfolding or_zero
  lpop s key = let (s', r) = client.lpop s key in (s', or_zero [] r)

  -- Lrem
  unfoldable pub lrem : S → Str → ℤ → Str → S × Reply ℤ
  lrem = client.lrem

  -- Ltrim
  unfoldable pub ltrim : S → Str → ℤ → ℤ → S × Reply Str
  ltrim = client.ltrim

  -- LPUSH
  unfoldable pub lpush : S → Str → List Str → S × Reply ℤ
  lpush = client.lpush

  -- BLPop: the reply is the key and the value.
  unfoldable pub blpop : S → Str → ℤ → S × Reply Str
  blpop s key timeout =
      let (s', r) = client.blpop s timeout key in
      elim r.err [
        | some e ↦ (s', record { value = []; err = some e })
        | none ↦ elim (get_elem? r.value 1) [
          | none ↦ (s', record { value = []; err = none })
          | some v ↦ (s', record { value = v; err = none })
        ]
      ]

  -- BRPoplpush
  unfoldable pub brpop_lpush : S → Str → Str → ℤ → S × Reply Str
  brpop_lpush = client.brpop_lpush

  -- SMembers, the empty list for nil.
  unfoldable pub smembers : S → Str → Reply (List Str)
  unfolding or_zero_value
  smembers s key = or_zero_value [] (client.smembers s key)

  -- Sismember
  unfoldable pub sismember : S → Str → Str → Reply ℕ
  sismember s key member =
      let r = client.sismember s key member in
      elim r.err [
        | some e ↦ record { value = 0; err = some e }
        | none ↦ record { value = if r.value then 1 else 0; err = none }
      ]

  -- SAdd
  unfoldable pub sadd : S → Str → List Str → S × Option RedisErr
  sadd = client.sadd

  -- SRem
  unfoldable pub srem : S → Str → Str → S × Option RedisErr
  srem = client.srem

  -- ZAdd
  unfoldable pub zadd : (F → Str) → S → Str → List (Arg F) → Outcome (S × Option RedisErr)
  unfolding zs_of
  zadd write s key args = zs_of write args args >>= λ members. returned (client.zadd s key members)

  -- ZRem
  unfoldable pub zrem : S → Str → List Str → S × Option RedisErr
  zrem = client.zrem

  -- ZRemRangeByScore
  unfoldable pub zrem_range_by_score : S → Str → Str → Str → S × Option RedisErr
  zrem_range_by_score = client.zrem_range_by_score
