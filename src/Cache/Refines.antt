-- ===== src/Cache/Refines.antt =====
-- What RedisCache and MemoryCache do with time.
use jian_yu_server_lib.Base.{
  ℕ, ◌≡◌, refl, ap, ◌∙◌, Bool, true, Option, none, some, List, [], ◌∷◌, if◌then◌else◌,
}
use jian_yu_server_lib.Strings.{Str}
use jian_yu_server_lib.Redis.Client.{Client}
use jian_yu_server_lib.Redis.Conn.{set, set_and_expire, get_string, del, or_zero_value}
use jian_yu_server_lib.Redis.Keys.{at_or_elsewhere}
use jian_yu_server_lib.Redis.Timed.{TimeLaws}
use package.jian_yu_server_lib.Cache.{CacheMap, put, new_memory_cache, memory_cache, redis_cache}
use package.jian_yu_server_lib.Cache.Laws.{text_of, get_string_text}
use package.jian_yu_server_lib.Cache.Timed.{
  TimedLaws, Op, set_op, delete_op, set_and_expire_op, wait_op, Write, removed, lasting, expiring,
  elapsed, last_write, remains, AllOk, apply_all, get-apply_all,
}

if_true {ℓ} : {A : Type ℓ} (b : Bool) (x y : A) → b ≡ true → (if b then x else y) ≡ x
if_true b x y e = rw e refl

module _ {ℓ} {S F : Type ℓ} (client : Client S F) (laws : TimeLaws client) where
  -- RedisCache keeps the laws of time where the client keeps those of redis.
  unfoldable pub timed_redis : TimedLaws (redis_cache client)
  unfolding set set_and_expire get_string del or_zero_value if_true
  timed_redis = record {
    lives = laws.expiry.lives;
    value_at = laws.value_at;
    later = laws.later;
    later_lem = laws.later_lem;
    set_lem = λ s key v n k ok.
        let (here, elsewhere) = laws.set_lem s key v 0 n ok in
        at_or_elsewhere (λ t. laws.value_at t n) s _ key k (some v)
          (here ∙ if_true (laws.expiry.lives 0 n) (some v) none (laws.expiry.forever n)) elsewhere;
    set_and_expire_lem = λ s key v d n k ok.
        let (here, elsewhere) = laws.set_lem s key v d n ok in
        at_or_elsewhere (λ t. laws.value_at t n) s _ key k _ here elsewhere;
    delete_lem = λ s key n k ok.
        let (here, elsewhere) = laws.del_lem s key n ok in
        at_or_elsewhere (λ t. laws.value_at t n) s _ key k none here elsewhere;
    get_lem = λ s key ok.
        get_string_text (client.get s key) (laws.value_at s 0 key) (client.get s key).err
          (laws.get_lem s key).0 (laws.get_lem s key).1 ok;
  }

abbrev pub always : ℕ → ℕ → Bool
always d n = true

-- MemoryCache keeps the laws where nothing expires.
abbrev pub timed_memory : TimedLaws memory_cache
timed_memory = record {
  lives = always;
  value_at = λ m n key. m key;
  later = λ n m. m;
  later_lem = λ m t n key. refl;
  set_lem = λ m key v n k ok. refl;
  set_and_expire_lem = λ m key v d n k ok. refl;
  delete_lem = λ m key n k ok. refl;
  get_lem = λ m key ok. refl;
}

-- MemoryCache has no errors.
memory-AllOk : (ops : List Op) (m : CacheMap) → AllOk memory_cache timed_memory m ops
unfolding AllOk
memory-AllOk [] m = tt
memory-AllOk (set_op key v ∷ ops) m = (refl, memory-AllOk ops (put m key (some v)))
memory-AllOk (delete_op key ∷ ops) m = (refl, memory-AllOk ops (put m key none))
memory-AllOk (set_and_expire_op key v d ∷ ops) m = (refl, memory-AllOk ops (put m key (some v)))
memory-AllOk (wait_op n ∷ ops) m = (refl, memory-AllOk ops m)

-- The value of the last write, however long ago it was and whatever expiry it had
abbrev pub last_text : Option (Write × ℕ) → Str
last_text none = []
last_text (some (removed, since)) = []
last_text (some (lasting v, since)) = v
last_text (some (expiring v d, since)) = v

last_text_lem :
    (t : ℕ) (o : Option (Write × ℕ)) → text_of (remains always (λ n. none) t o) ≡ last_text o
last_text_lem t none = refl
last_text_lem t (some (removed, since)) = refl
last_text_lem t (some (lasting v, since)) = refl
last_text_lem t (some (expiring v d, since)) = refl

-- A new MemoryCache answers every read, after any calls and with any time between them, without an
-- error and with the value of the last write to the key, and with the empty text where that was Delete
-- or there was none. The time that SetAndExpire gives a value has no effect, however long ago it was.
pub memory_cache_refines :
    (ops : List Op) (key : Str)
    → memory_cache.get (apply_all memory_cache timed_memory new_memory_cache ops) key
      ≡ record { value = last_text (last_write key ops); err = none }
memory_cache_refines ops key =
    ap (λ v. record { value = v; err = none })
      (get-apply_all memory_cache timed_memory ops new_memory_cache key
          (memory-AllOk ops new_memory_cache) refl
        ∙ last_text_lem (elapsed ops) (last_write key ops))
