-- ===== src/Redis/Memory.antt =====
-- A server that keeps strings in memory, without errors and without expiry, which shows that the laws
-- of redis can be kept. Its other collections are always empty.
use mathlib.Core.List
use mathlib.Core.Path.{subst}
use jian_yu_server_lib.Base.{
  ℕ, ◌≡◌, ◌≢◌, refl, sym, ap, Bool, true, false, Option, none, some, List, [], ◌∷◌, if◌then◌else◌,
}
use jian_yu_server_lib.Base.Int.{ℤ, pos}
use jian_yu_server_lib.Strings.{Str, str, str_eq}
use jian_yu_server_lib.Strings.Laws.{str_eq_iff, str_eq_refl, ne→str_eq}
use package.jian_yu_server_lib.Redis.Client.{Client, RedisErr, redis_nil, Reply}
use package.jian_yu_server_lib.Redis.Keys.{KeyLaws, holds}

abbrev pub Server : Type 0
Server = Str → Option Str

abbrev pub put : Server → Str → Option Str → Server
put s key v k = if str_eq k key then v else s k

abbrev pub reply {ℓ} : {A : Type ℓ} → A → Reply A
reply a = record { value = a; err = none }

abbrev pub get_reply : Option Str → Reply Str
get_reply none = record { value = []; err = some redis_nil }
get_reply (some v) = reply v

abbrev pub set_nx_reply : Server → Str → Str → Option Str → Server × Reply Bool
set_nx_reply s key v none = (put s key (some v), reply true)
set_nx_reply s key v (some w) = (s, reply false)

abbrev pub compared : Server → Str → Bool → Server × Reply ℤ
compared s key true = (put s key none, reply (pos 1))
compared s key false = (s, reply (pos 0))

-- The only script is that of CompareAndDelete.
abbrev pub run_script : Server → List Str → List Str → Server × Reply ℤ
run_script s (key ∷ []) (v ∷ []) = compared s key (holds (s key) v)
run_script s keys args = (s, reply (pos 0))

-- A client of a server whose keys hold strings only.
abbrev pub string_client :
    {S : Type 0}
    → (S → Str → Str → ℤ → S × Option RedisErr)
    → (S → Str → Reply Str)
    → (S → Str → S × Option RedisErr)
    → (S → Str → Str → ℤ → S × Reply Bool)
    → (S → Str → List Str → List Str → S × Reply ℤ)
    → Client S ℕ
string_client set get del set_nx eval = record {
  ping = λ s. reply (str "PONG");
  set = set;
  get = get;
  del = del;
  set_nx = set_nx;
  eval = eval;
  llen = λ s key. reply (pos 0);
  lrange = λ s key start stop. reply [];
  lpop = λ s key. (s, record { value = []; err = some redis_nil });
  lrem = λ s key count v. (s, reply (pos 0));
  ltrim = λ s key start stop. (s, reply (str "OK"));
  lpush = λ s key vs. (s, reply (pos 0));
  blpop = λ s timeout key. (s, record { value = []; err = some redis_nil });
  brpop_lpush = λ s source destination timeout. (s, record { value = []; err = some redis_nil });
  smembers = λ s key. reply [];
  sismember = λ s key member. reply false;
  sadd = λ s key members. (s, none);
  srem = λ s key member. (s, none);
  hget = λ s key field. record { value = []; err = some redis_nil };
  hmget = λ s key fields. reply (some (List.map (λ (f : Str). none) fields));
  hmset = λ s key m. (s, none);
  hgetall = λ s key. reply [];
  hset = λ s key field v. (s, none);
  hdel = λ s key field. (s, none);
  hincr_by = λ s key field n. (s, reply n);
  zadd = λ s key zs. (s, none);
  zrem = λ s key members. (s, none);
  zrem_range_by_score = λ s key low high. (s, none);
  expire = λ s key d. (s, none);
  incr = λ s key. (s, reply (pos 1));
  decr = λ s key. (s, reply (pos 0));
  mset = λ s kvs. (s, none);
  keys = λ s pattern. reply [];
  publish = λ s channel message. (s, none);
}

abbrev pub memory_client : Client Server ℕ
memory_client =
    string_client (λ s key v expire. (put s key (some v), none)) (λ s key. get_reply (s key))
      (λ s key. (put s key none, none)) (λ s key v expire. set_nx_reply s key v (s key))
      (λ s script keys args. run_script s keys args)

put_self : (s : Server) (key : Str) (v : Option Str) → put s key v key ≡ v
put_self s key v = rw (str_eq_refl key) refl

put_other : (s : Server) (key k : Str) (v : Option Str) → k ≢ key → put s key v k ≡ s k
put_other s key k v ne = rw (ne→str_eq k key ne) refl

pub get_reply_lem :
    (o : Option Str)
    → ((get_reply o).err ≡ none → o ≡ some (get_reply o).value)
      × ((get_reply o).err ≡ some redis_nil → o ≡ none)
get_reply_lem none = (λ h. cc, λ h. refl)
get_reply_lem (some v) = (λ h. refl, λ h. cc)

some_injective : (w v : Str) → some w ≡ some v → w ≡ v
some_injective w v h = cc

holds_lem :
    (o : Option Str) (v : Str) → (o ≡ some v → holds o v ≡ true) × (o ≢ some v → holds o v ≡ false)
holds_lem none v = (λ h. cc, λ h. refl)
holds_lem (some w) v =
    (λ h. (str_eq_iff w v).1 (some_injective w v h), λ h. ne→str_eq w v (λ e. h (ap some e)))

unfoldable pub memory_laws : KeyLaws memory_client
unfolding put_self put_other get_reply_lem holds_lem some_injective
memory_laws = record {
  value = λ s. s;
  set_lem = λ s key v expire ok. (put_self s key (some v), λ k ne. put_other s key k (some v) ne);
  get_lem = λ s key. get_reply_lem (s key);
  del_lem = λ s key ok. (put_self s key none, λ k ne. put_other s key k none ne);
  set_nx-free = λ s key v expire ok free.
      subst (λ r. (r.1.value ≡ true) × (r.0 key ≡ some v) × ((k : Str) → k ≢ key → r.0 k ≡ s k))
        (ap (set_nx_reply s key v) (sym free))
        (refl, put_self s key (some v), λ k ne. put_other s key k (some v) ne);
  set_nx-held = λ s key v w expire ok held.
      subst (λ r. (r.1.value ≡ false) × ((k : Str) → r.0 k ≡ s k))
        (ap (set_nx_reply s key v) (sym held)) (refl, λ k. refl);
  eval-same = λ s key v ok same.
      subst (λ r. (r.1.value ≡ pos 1) × (r.0 key ≡ none) × ((k : Str) → k ≢ key → r.0 k ≡ s k))
        (ap (compared s key) (sym ((holds_lem (s key) v).0 same)))
        (refl, put_self s key none, λ k ne. put_other s key k none ne);
  eval-different = λ s key v ok differs.
      subst (λ r. (r.1.value ≡ pos 0) × ((k : Str) → r.0 k ≡ s k))
        (ap (compared s key) (sym ((holds_lem (s key) v).1 differs))) (refl, λ k. refl);
}
