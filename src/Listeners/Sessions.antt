-- ===== src/Listeners/Sessions.antt =====
-- The sessions and caches of config/context.go, which a Context makes on first use, its values and
-- its router. Making a session is a parameter, from a state of the world outside.
use jian_yu_server_lib.Base.{
  ◌≡◌, ◌≢◌, refl, Option, none, some, if◌then◌else◌, Option-cases, inl, inr,
}
use jian_yu_server_lib.Strings.{Str, str_eq}
use jian_yu_server_lib.Strings.Laws.{str_eq_refl, ne→str_eq}

-- What a Context keeps of its sessions, caches, router and values; `none` is nil. `W` is the world
-- outside, `D` a session of MySQL, `R` a redis cache, `M` a memory cache.
pub record Sessions (W D R M H V : Type 0) : Type 0 where
  pub world : W
  pub my_sql_session : Option D
  pub redis_cache : Option R
  pub memory_cache : Option M
  pub http_router : Option H
  pub value_map : Str → Option V

module _ {W D R M H V : Type 0} where
  -- NewMySQL, and DB, which calls it
  unfoldable pub new_my_sql : (W → W × D) → Sessions W D R M H V → D × Sessions W D R M H V
  new_my_sql make c = elim c.my_sql_session [
    | some d ↦ (d, c)
    | none ↦
        let made = make c.world in
        (made.1, record c { world = made.0; my_sql_session = some made.1 })
  ]

  -- NewRedisCache, and Cache, which calls it
  unfoldable pub new_redis_cache : (W → W × R) → Sessions W D R M H V → R × Sessions W D R M H V
  new_redis_cache make c = elim c.redis_cache [
    | some r ↦ (r, c)
    | none ↦
        let made = make c.world in (made.1, record c { world = made.0; redis_cache = some made.1 })
  ]

  -- NewMemoryCache
  unfoldable pub context_memory_cache :
      (W → W × M) → Sessions W D R M H V → M × Sessions W D R M H V
  context_memory_cache make c = elim c.memory_cache [
    | some m ↦ (m, c)
    | none ↦
        let made = make c.world in (made.1, record c { world = made.0; memory_cache = some made.1 })
  ]

  -- GetHttpRoute
  unfoldable pub get_http_route : Sessions W D R M H V → Option H
  get_http_route c = c.http_router

  -- SetHttpRoute
  unfoldable pub set_http_route : Sessions W D R M H V → H → Sessions W D R M H V
  set_http_route c r = record c { http_router = some r }

  -- SetValue
  unfoldable pub set_value : Sessions W D R M H V → V → Str → Sessions W D R M H V
  set_value c value key = record c {
    value_map = λ k. if str_eq k key then some value else c.value_map k;
  }

  -- Value
  unfoldable pub value : Sessions W D R M H V → Str → Option V
  value c key = c.value_map key

  -- A value is found under its key, and setting it changes no other key.
  pub value-set_value :
      (c : Sessions W D R M H V) (v : V) (key other : Str)
      → (value (set_value c v key) key ≡ some v)
        × (other ≢ key → value (set_value c v key) other ≡ value c other)
  unfolding value set_value
  value-set_value c v key other =
      (rw (str_eq_refl key) refl, λ ne. rw (ne→str_eq other key ne) refl)

  -- A Context makes one redis cache: the next call gives the same and changes nothing.
  pub new_redis_cache-again :
      (make : W → W × R) (c : Sessions W D R M H V)
      → new_redis_cache make (new_redis_cache make c).1 ≡ new_redis_cache make c
  unfolding new_redis_cache
  new_redis_cache-again make c = elim (Option-cases c.redis_cache) [
    | inl none_yet ↦ simp (none_yet, new_redis_cache) refl
    | inr (r, kept) ↦ simp (kept, new_redis_cache) refl
  ]

  -- It opens MySQL once likewise.
  pub new_my_sql-again :
      (make : W → W × D) (c : Sessions W D R M H V)
      → new_my_sql make (new_my_sql make c).1 ≡ new_my_sql make c
  unfolding new_my_sql
  new_my_sql-again make c = elim (Option-cases c.my_sql_session) [
    | inl none_yet ↦ simp (none_yet, new_my_sql) refl
    | inr (d, kept) ↦ simp (kept, new_my_sql) refl
  ]
