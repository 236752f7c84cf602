-- ===== src/Cache/Tests.antt =====
-- A token in a cache in memory, and in redis.
use jian_yu_server_lib.Base.{ℕ, ◌≡◌, ◌<◌, ◌⊎◌, refl, none, some, List, [], ◌∷◌, ◌++◌, arith}
use jian_yu_server_lib.Base.Int.{pos}
use jian_yu_server_lib.Strings.{Str, str, str_eq}
use jian_yu_server_lib.Http.{
  Decision, next, abort, status_unauthorized, login_first, company_code_of, uid_company_code,
}
use jian_yu_server_lib.Http.Auth.{token_value}
use jian_yu_server_lib.Redis.Conn.{get_string, or_zero_value, set, set_and_expire, del}
use jian_yu_server_lib.Redis.Clocked.{Clocked, clocked_client, clocked_expiry, clocked_laws}
use package.jian_yu_server_lib.Cache.{memory_cache, redis_cache, new_memory_cache, CacheMap, put}
use package.jian_yu_server_lib.Cache.Laws.{memory_laws}
use package.jian_yu_server_lib.Cache.Timed.{
  TimedLaws, Op, set_op, delete_op, set_and_expire_op, wait_op, elapsed, last_write, apply_all,
  AllOk,
}
use package.jian_yu_server_lib.Cache.Refines.{
  timed_redis, timed_memory, last_text, memory_cache_refines,
}
use package.jian_yu_server_lib.Cache.Sessions.{auth, other_token_kept}
use package.jian_yu_server_lib.Cache.Lifetime.{token_lifecycle}

abbrev key : Str
key = b'k' ∷ []

abbrev ops : List Op
ops = set_op key (b'1' ∷ []) ∷ set_and_expire_op key (b'2' ∷ []) 5 ∷ wait_op 9 ∷ []

memory_cache_refines_example :
    memory_cache.get (apply_all memory_cache timed_memory new_memory_cache ops) key
    ≡ record { value = last_text (last_write key ops); err = none }
memory_cache_refines_example = memory_cache_refines ops key

-- The value of SetAndExpire is there after any time.
memory_keeps : last_text (last_write key ops) ≡ b'2' ∷ []
unfolding last_write elapsed str_eq
memory_keeps = refl

abbrev empty_server : Clocked
empty_server = record { now = 7; entries = λ k. none }

abbrev on_redis : TimedLaws (redis_cache clocked_client)
on_redis = timed_redis clocked_client clocked_laws

-- Of redis it is gone after 9 of its 5 milliseconds.
redis_forgets :
    (get_string clocked_client
      (apply_all (redis_cache clocked_client) on_redis empty_server ops)
      key).value
    ≡ []
unfolding apply_all get_string or_zero_value set str_eq set_and_expire timed_redis clocked_laws
redis_forgets = refl

abbrev uid : Str
uid = str "u1code"

abbrev token_key : Str
token_key = str "token:" ++ str "t"

abbrev user : Str
user = token_value uid (str "n") (str "r") (str "d")

abbrev stored : CacheMap
stored = put new_memory_cache token_key (some user)

abbrev deleted : CacheMap
deleted = put stored token_key none

-- A server that has the token, for 50 milliseconds
abbrev with_token : Clocked
with_token = (clocked_client.set empty_server token_key user (pos 50000000)).0

abbrev used : List Op
used = set_op key (b'1' ∷ []) ∷ wait_op 60 ∷ []

abbrev left_again : List Op
left_again = wait_op 20 ∷ delete_op token_key ∷ wait_op 1 ∷ []

abbrev asked : List Op → Decision
asked ops =
    auth (redis_cache clocked_client)
      (apply_all (redis_cache clocked_client) on_redis with_token ops) (str "token:") (str "t")
      (str "z")

token_lifecycle_example :
    ((◌≡◌ {A = ℕ} 50 0) ⊎ (elapsed used < 50)
      → asked used ≡ next uid (str "n") (str "r") (company_code_of (str "z") uid))
    × ((0 < 50) × (50 < elapsed used) → asked used ≡ abort status_unauthorized login_first)
    × (asked left_again ≡ abort status_unauthorized login_first)
unfolding str uid_company_code company_code_of str_eq AllOk apply_all get_string or_zero_value set
    del set_and_expire timed_redis clocked_laws last_write elapsed
token_lifecycle_example =
    token_lifecycle (redis_cache clocked_client) on_redis (str "token:") (str "t") (str "z")
      clocked_expiry empty_server with_token uid (str "n") (str "r") (str "d") 50 1 used left_again
      refl refl (refl, (refl, tt)) refl refl (refl, (refl, (refl, tt))) refl refl (ground arith)
      (omega arith) (omega arith) (omega arith) (ground arith)

other_token_kept_example :
    (auth memory_cache stored (str "token:") (str "o") []
      ≡ auth memory_cache new_memory_cache (str "token:") (str "o") [])
    × (auth memory_cache deleted (str "token:") (str "o") []
        ≡ auth memory_cache new_memory_cache (str "token:") (str "o") [])
unfolding str
other_token_kept_example =
    other_token_kept memory_cache memory_laws (str "token:") (str "t") [] new_memory_cache stored
      deleted user (str "o") (pos 5) refl refl (ground arith) refl refl refl
