-- ===== src/Cache/Sessions.antt =====
-- The middleware of pkg/wkhttp on a cache: the tokens that a server keeps there.
use jian_yu_server_lib.Base.{
  ◌≡◌, ◌≢◌, refl, ap, sym, ◌∙◌, true, Option, none, some, [], ◌∷◌, ◌++◌, if◌then◌else◌,
}
use jian_yu_server_lib.Base.Int.{ℤ}
use jian_yu_server_lib.Strings.{Str, str_eq, is_blank}
use jian_yu_server_lib.Strings.Laws.{ne→str_eq}
use jian_yu_server_lib.Redis.Client.{RedisErr}
use jian_yu_server_lib.Http.{
  CacheReply, found, broken, Decision, abort, status_unauthorized, status_service_unavailable,
  login_first, busy, auth_middleware, get_login_uid_with_err,
}
use package.jian_yu_server_lib.Cache.{Cache}
use package.jian_yu_server_lib.Cache.Laws.{CacheLaws, text_of}

-- What `cache.Get` of the interface gives GetLoginUIDWithErr.
abbrev pub reply_of : Str → Option RedisErr → CacheReply
reply_of value none = found value
reply_of value (some e) = broken

pub reply_of-ok :
    (value : Str) (err : Option RedisErr) → err ≡ none → reply_of value err ≡ found value
reply_of-ok value err e = rw e refl

append_cancel : (p a b : Str) → p ++ a ≡ p ++ b → a ≡ b
append_cancel [] a b h = h
append_cancel (c ∷ p) a b h = append_cancel p a b (cc)

module _ {ℓ} {C : Type ℓ} (cache : Cache C) where
  abbrev pub reader : C → Str → CacheReply
  reader c key = let r = cache.get c key in reply_of r.value r.err

  -- AuthMiddleware on a cache in a state.
  abbrev pub auth : C → Str → Str → Str → Decision
  auth c prefix token company = auth_middleware (reader c) prefix token company

  pub auth-found :
      (c : C) (prefix token company v : Str)
      → token ≢ []
      → reader c (prefix ++ token) ≡ found v
      → is_blank v ≡ true
      → auth c prefix token company ≡ abort status_unauthorized login_first
  unfolding auth_middleware get_login_uid_with_err
  auth-found c prefix token company v ne e blank = rw (ne→str_eq token [] ne, e, blank) refl

  auth-broken :
      (c : C) (prefix token company : Str)
      → token ≢ []
      → reader c (prefix ++ token) ≡ broken
      → auth c prefix token company ≡ abort status_service_unavailable busy
  unfolding auth_middleware get_login_uid_with_err
  auth-broken c prefix token company ne e = rw (ne→str_eq token [] ne, e) refl

  auth_same :
      (c d : C) (prefix token company : Str)
      → reader c (prefix ++ token) ≡ reader d (prefix ++ token)
      → auth c prefix token company ≡ auth d prefix token company
  unfolding auth_middleware get_login_uid_with_err
  auth_same c d prefix token company e = rw e refl

  module _ (laws : CacheLaws cache) (prefix token company : Str) where
    reader-view :
        (c : C) (key : Str)
        → (cache.get c key).err ≡ none
        → reader c key ≡ found (text_of (laws.view c key))
    reader-view c key ok =
        reply_of-ok (cache.get c key).value (cache.get c key).err ok
        ∙ ap found (laws.get_lem c key ok)

    reader_of :
        (c : C) (key : Str) (o : Option Str)
        → laws.view c key ≡ o
        → (cache.get c key).err ≡ none
        → reader c key ≡ found (text_of o)
    reader_of c key o e ok = reader-view c key ok ∙ ap (λ o. found (text_of o)) e

    stored_all :
        (c d : C) (key v : Str) (expire : ℤ) (k : Str)
        → cache.set_and_expire c key v expire ≡ (d, none)
        → laws.view d k ≡ (if str_eq k key then some v else laws.view c k)
    stored_all c d key v expire k e =
        ap (λ r. laws.view r.0 k) (sym e)
        ∙ laws.set_and_expire_lem c key v expire k (ap (λ r. r.1) e)

    deleted_all :
        (c d : C) (key k : Str)
        → cache.delete c key ≡ (d, none)
        → laws.view d k ≡ (if str_eq k key then none else laws.view c k)
    deleted_all c d key k e =
        ap (λ r. laws.view r.0 k) (sym e) ∙ laws.delete_lem c key k (ap (λ r. r.1) e)

    same_elsewhere :
        (c d : C) (key k : Str) (o : Option Str)
        → laws.view d k ≡ (if str_eq k key then o else laws.view c k)
        → k ≢ key
        → (cache.get c k).err ≡ none
        → (cache.get d k).err ≡ none
        → reader d k ≡ reader c k
    same_elsewhere c d key k o e ne before after =
        reader_of d k (laws.view c k) (e ∙ rw (ne→str_eq k key ne) refl) after
        ∙ sym (reader-view c k before)

    -- Storing a token and deleting it again, without an error, changes nothing for another token that
    -- the cache can read before and after.
    pub other_token_kept :
        (c stored deleted : C) (value other : Str) (expire : ℤ)
        → cache.set_and_expire c (prefix ++ token) value expire ≡ (stored, none)
        → cache.delete stored (prefix ++ token) ≡ (deleted, none)
        → other ≢ token
        → (cache.get c (prefix ++ other)).err ≡ none
        → (cache.get stored (prefix ++ other)).err ≡ none
        → (cache.get deleted (prefix ++ other)).err ≡ none
        → (auth stored prefix other company ≡ auth c prefix other company)
          × (auth deleted prefix other company ≡ auth c prefix other company)
    other_token_kept c stored deleted value other expire put gone ne before between after =
        let key = prefix ++ token in
        let k = prefix ++ other in
        let apart : k ≢ key = λ same. ne (append_cancel prefix other token same) in
        let first =
          same_elsewhere c stored key k (some value) (stored_all c stored key value expire k put)
            apart before between in
        let second =
          same_elsewhere stored deleted key k none (deleted_all stored deleted key k gone) apart
            between after in
        (
          auth_same stored c prefix other company first,
          auth_same deleted c prefix other company (second ∙ first),
        )

    -- A request with a token in which the cache cannot be read is answered by 503, never by 401.
    unreadable :
        (c : C) (e : RedisErr)
        → token ≢ []
        → (cache.get c (prefix ++ token)).err ≡ some e
        → auth c prefix token company ≡ abort status_service_unavailable busy
    unreadable c e ne failed =
        auth-broken c prefix token company ne
          (ap (reply_of (cache.get c (prefix ++ token)).value) failed)
