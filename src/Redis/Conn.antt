-- ===== src/Redis/Conn.antt =====
-- pkg/redis/redis.go: the commands on keys with strings and with hashes.
use jian_yu_server_lib.Base.{Bool, false, Option, none, some, List, [], ◌∷◌, ◌==◌, if◌then◌else◌}
use jian_yu_server_lib.Base.Int.{ℤ, pos, negsuc}
use jian_yu_server_lib.Base.Outcome.{Outcome, returned, panicked, ◌>>=◌}
use jian_yu_server_lib.Strings.{Str, str, str_eq}
use package.jian_yu_server_lib.Redis.Client.{Client, RedisErr, redis_nil, other, Reply}

-- `if err == rd.Nil { return zero, nil }; return val, err`
unfoldable pub or_zero_by {ℓ} : {A : Type ℓ} → A → Reply A → Option RedisErr → Reply A
or_zero_by zero_value r (some redis_nil) = record { value = zero_value; err = none }
or_zero_by zero_value r (some (other e)) = r
or_zero_by zero_value r none = r

unfoldable pub or_zero {ℓ} : {A : Type ℓ} → A → Reply A → Reply A
unfolding or_zero_by
or_zero zero_value r = or_zero_by zero_value r r.err

-- The same, where any other error also gives the zero value.
unfoldable pub or_zero_value_by {ℓ} : {A : Type ℓ} → A → Reply A → Option RedisErr → Reply A
or_zero_value_by zero_value r (some redis_nil) = record { value = zero_value; err = none }
or_zero_value_by zero_value r (some (other e)) = record { value = zero_value; err = some (other e) }
or_zero_value_by zero_value r none = r

unfoldable pub or_zero_value {ℓ} : {A : Type ℓ} → A → Reply A → Reply A
unfolding or_zero_value_by
or_zero_value zero_value r = or_zero_value_by zero_value r r.err

-- The pairs of an even list, `none` for an odd one.
unfoldable pub pairs_of : List Str → Option (List (Str × Str))
pairs_of [] = some []
pairs_of (f ∷ []) = none
pairs_of (f ∷ v ∷ rest) = elim (pairs_of rest) [ none ↦ none | some ps ↦ some ((f, v) ∷ ps) ]

-- `fieldValueMap[field] = value`, on the entries of the map.
unfoldable pub put_field : Str → Str → List (Str × Str) → List (Str × Str)
put_field f v [] = (f, v) ∷ []
put_field f v ((g, w) ∷ m) =
    let rest = put_field f v m in if str_eq g f then (g, v) ∷ m else (g, w) ∷ rest

-- The loop of Hmset.
unfoldable pub field_value_map : List (Str × Str) → List (Str × Str) → List (Str × Str)
unfolding put_field
field_value_map [] m = m
field_value_map ((f, v) ∷ rest) m = field_value_map rest (put_field f v m)

abbrev pub is_one : ℤ → Bool
is_one (pos n) = n == 1
is_one (negsuc n) = false

-- The loop of Hmget; the type assertion panics on nil.
unfoldable pub result_strings : List (Option Str) → Outcome (List Str)
result_strings [] = returned []
result_strings (none ∷ rest) = panicked
result_strings (some s ∷ rest) = result_strings rest >>= λ ss. returned (s ∷ ss)

abbrev pub compare_and_delete_script : Str
compare_and_delete_script =
    str
      "if redis.call(\"get\", KEYS[1]) == ARGV[1] then return redis.call(\"del\", KEYS[1]) else return 0 end"

-- What CompareAndDelete returns for the reply of the script.
unfoldable pub deleted_reply : ℤ → Option RedisErr → Reply Bool
deleted_reply n (some e) = record { value = false; err = some e }
deleted_reply n none = record { value = is_one n; err = none }

-- What Hmget makes of the client's reply, none for a nil slice.
unfoldable pub hmget_result :
    Option (List (Option Str)) → Option RedisErr → Outcome (Reply (Option (List Str)))
unfolding result_strings
hmget_result value (some redis_nil) = returned (record { value = none; err = none })
hmget_result value (some (other e)) = returned (record { value = none; err = some (other e) })
hmget_result none none = returned (record { value = none; err = none })
hmget_result (some results) none =
    result_strings results >>= λ ss. returned (record { value = some ss; err = none })

module _ {ℓ} {S F : Type ℓ} (client : Client S F) where
  -- Ping
  unfoldable pub ping : S → Reply Str
  ping = client.ping

  -- Set
  unfoldable pub set : S → Str → Str → S × Option RedisErr
  set s key value = client.set s key value (pos 0)

  -- SetAndExpire
  unfoldable pub set_and_expire : S → Str → Str → ℤ → S × Option RedisErr
  set_and_expire = client.set

  -- GetString
  unfoldable pub get_string : S → Str → Reply Str
  unfolding or_zero_value
  get_string s key = or_zero_value [] (client.get s key)

  -- Del
  unfoldable pub del : S → Str → S × Option RedisErr
  del = client.del

  -- Expire and SetExpire
  unfoldable pub expire : S → Str → ℤ → S × Option RedisErr
  expire = client.expire

  -- Incr
  unfoldable pub incr : S → Str → S × Reply ℤ
  incr = client.incr

  -- Decr
  unfoldable pub decr : S → Str → S × Reply ℤ
  decr = client.decr

  -- MSet
  unfoldable pub mset : S → List Str → S × Option RedisErr
  mset = client.mset

  -- GetKeys
  unfoldable pub get_keys : S → Str → Reply (List Str)
  get_keys = client.keys

  -- Publish
  unfoldable pub publish : S → Str → Str → S × Option RedisErr
  publish = client.publish

  -- Lock: only the error of SetNX is looked at, not whether it has set the key.
  unfoldable pub lock : S → Str → Str → ℤ → S × Option RedisErr
  lock s key value duration = let (s', r) = client.set_nx s key value duration in (s', r.err)

  -- UnLock after its call of Get.
  unfoldable pub unlock_found : S → Str → Str → Option RedisErr → S × Option RedisErr
  unlock_found s key val (some e) = (s, some e)
  unlock_found s key val none = if str_eq val [] then (s, none) else client.del s key

  -- UnLock
  unfoldable pub unlock : S → Str → S × Option RedisErr
  unfolding unlock_found
  unlock s key = let r = client.get s key in unlock_found s key r.value r.err

  -- SetNX
  unfoldable pub set_nx : S → Str → Str → ℤ → S × Reply Bool
  set_nx = client.set_nx

  -- CompareAndDelete
  unfoldable pub compare_and_delete : S → Str → Str → S × Reply Bool
  unfolding deleted_reply
  compare_and_delete s key expected_value =
      let (s', r) = client.eval s compare_and_delete_script (key ∷ []) (expected_value ∷ []) in
      (s', deleted_reply r.value r.err)

  -- Hget
  unfoldable pub hget : S → Str → Str → Reply Str
  unfolding or_zero
  hget s key field = or_zero [] (client.hget s key field)

  -- Hmget
  unfoldable pub hmget : S → Str → List Str → Outcome (Reply (Option (List Str)))
  unfolding hmget_result
  hmget s key fields = let r = client.hmget s key fields in hmget_result r.value r.err

  -- Hmset
  unfoldable pub hmset : S → Str → List Str → S × Option RedisErr
  unfolding pairs_of field_value_map
  hmset s key field_values = elim (pairs_of field_values) [
    | none ↦ (s, some (other (str "redis hmset操作失败【fieldValues不能为单数！】")))
    | some pairs ↦ client.hmset s key (field_value_map pairs [])
  ]

  -- Hgetall, the empty map for nil.
  unfoldable pub hgetall : S → Str → Reply (List (Str × Str))
  unfolding or_zero
  hgetall s key = or_zero [] (client.hgetall s key)

  -- Hset
  unfoldable pub hset : S → Str → Str → Str → S × Option RedisErr
  hset = client.hset

  -- Hdel
  unfoldable pub hdel : S → Str → Str → S × Option RedisErr
  hdel = client.hdel

  -- Hincrby
  unfoldable pub hincr_by : S → Str → Str → ℤ → S × Reply ℤ
  hincr_by = client.hincr_by
