-- ===== src/Cache/Laws.antt =====
-- What both implementations promise of the interface at the moment after a call.
use jian_yu_server_lib.Base.{◌≡◌, refl, Option, none, some, [], if◌then◌else◌, arith}
use jian_yu_server_lib.Base.Int.{ℤ, pos}
use jian_yu_server_lib.Strings.{Str, str_eq}
use jian_yu_server_lib.Redis.Client.{Client, RedisErr, redis_nil, other, Reply}
use jian_yu_server_lib.Redis.Conn.{
  set, set_and_expire, get_string, del, or_zero_value, or_zero_value_by,
}
use jian_yu_server_lib.Redis.Keys.{KeyLaws, at_or_elsewhere}
use package.jian_yu_server_lib.Cache.{Cache, memory_cache, redis_cache}

-- A missing key reads as the empty text.
abbrev pub text_of : Option Str → Str
text_of none = []
text_of (some v) = v

-- A cache holds an abstract map, `view`; each law is about a call that has no error.
pub record CacheLaws {ℓ} {C : Type ℓ} (cache : Cache C) : Type ℓ where
  pub view : C → Str → Option Str
  pub set_lem :
      (c : C) (key v k : Str)
      → (cache.set c key v).1 ≡ none
      → view (cache.set c key v).0 k ≡ (if str_eq k key then some v else view c k)
  pub set_and_expire_lem :
      (c : C) (key v : Str) (expire : ℤ) (k : Str)
      → (cache.set_and_expire c key v expire).1 ≡ none
      → view (cache.set_and_expire c key v expire).0 k ≡ (if str_eq k key then some v else view c k)
  pub delete_lem :
      (c : C) (key k : Str)
      → (cache.delete c key).1 ≡ none
      → view (cache.delete c key).0 k ≡ (if str_eq k key then none else view c k)
  pub get_lem :
      (c : C) (key : Str)
      → (cache.get c key).err ≡ none
      → (cache.get c key).value ≡ text_of (view c key)

-- MemoryCache keeps the laws.
abbrev pub memory_laws : CacheLaws memory_cache
memory_laws = record {
  view = λ m. m;
  set_lem = λ m key v k ok. refl;
  set_and_expire_lem = λ m key v expire k ok. refl;
  delete_lem = λ m key k ok. refl;
  get_lem = λ m key ok. refl;
}

pub get_string_text :
    (r : Reply Str) (o : Option Str) (err : Option RedisErr)
    → (err ≡ none → o ≡ some r.value)
    → (err ≡ some redis_nil → o ≡ none)
    → (or_zero_value_by [] r err).err ≡ none
    → (or_zero_value_by [] r err).value ≡ text_of o
unfolding or_zero_value_by
get_string_text r o (some redis_nil) present missing ok = rw (missing refl) refl
get_string_text r o (some (other e)) present missing ok = absurd (ground arith)
get_string_text r o none present missing ok = rw (present refl) refl

module _ {ℓ} {S F : Type ℓ} (client : Client S F) (laws : KeyLaws client) where
  -- RedisCache keeps the laws where the client keeps those of redis.
  unfoldable pub redis_laws : CacheLaws (redis_cache client)
  unfolding set set_and_expire get_string del or_zero_value get_string_text
  redis_laws = record {
    view = laws.value;
    set_lem = λ s key v k ok.
        let (here, elsewhere) = laws.set_lem s key v (pos 0) ok in
        at_or_elsewhere laws.value s _ key k (some v) here elsewhere;
    set_and_expire_lem = λ s key v expire k ok.
        let (here, elsewhere) = laws.set_lem s key v expire ok in
        at_or_elsewhere laws.value s _ key k (some v) here elsewhere;
    delete_lem = λ s key k ok.
        let (here, elsewhere) = laws.del_lem s key ok in
        at_or_elsewhere laws.value s _ key k none here elsewhere;
    get_lem = λ s key ok.
        get_string_text (client.get s key) (laws.value s key) (client.get s key).err
          (laws.get_lem s key).0 (laws.get_lem s key).1 ok;
  }
