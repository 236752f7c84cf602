-- ===== src/Cache/Lifetime.antt =====
-- The middleware of pkg/wkhttp on a cache, with the time that a token lives.
use jian_yu_server_lib.Base.{
  ℕ, ◌*◌, ◌<◌, ◌≡◌, ◌≢◌, ◌⊎◌, inl, inr, refl, sym, ap, ◌∙◌, true, false, Option, none, some, List,
  [], ◌++◌, if◌then◌else◌, Lacks,
}
use jian_yu_server_lib.Base.Int.{pos}
use jian_yu_server_lib.Strings.{Str, str_eq, is_blank, trim_left}
use jian_yu_server_lib.Strings.Laws.{str_eq_refl}
use jian_yu_server_lib.Http.{found, abort, next, status_unauthorized, login_first, company_code_of}
use jian_yu_server_lib.Http.Auth.{auth_accepts, token_value}
use jian_yu_server_lib.Redis.Timed.{Expiry}
use package.jian_yu_server_lib.Cache.{Cache}
use package.jian_yu_server_lib.Cache.Laws.{text_of}
use package.jian_yu_server_lib.Cache.Sessions.{reader, auth, auth-found, reply_of-ok}
use package.jian_yu_server_lib.Cache.Timed.{
  TimedLaws, Op, removed, elapsed, last_write, remains, AllOk, apply_all, value_at-apply_all,
}

lives_young : (expiry : Expiry) (d n : ℕ) → (d ≡ 0) ⊎ (n < d) → expiry.lives d n ≡ true
lives_young expiry d n (inl none_given) = rw none_given (expiry.forever n)
lives_young expiry d n (inr young) = expiry.before d n young

module _ {ℓ} {C : Type ℓ} (cache : Cache C) (laws : TimedLaws cache) where
  reader-value_at :
      (c : C) (key : Str) (o : Option Str)
      → laws.value_at c 0 key ≡ o
      → (cache.get c key).err ≡ none
      → reader cache c key ≡ found (text_of o)
  reader-value_at c key o e ok =
      reply_of-ok (cache.get c key).value (cache.get c key).err ok
      ∙ ap found (laws.get_lem c key ok ∙ ap text_of e)

  -- What a key holds `n` after a value was stored there for `d`
  stored_for :
      (c stored : C) (key v : Str) (d n : ℕ)
      → cache.set_and_expire c key v (pos (d * 1000000)) ≡ (stored, none)
      → laws.value_at stored n key ≡ (if laws.lives d n then some v else none)
  stored_for c stored key v d n e =
      ap (λ r. laws.value_at r.0 n key) (sym e)
      ∙ (laws.set_and_expire_lem c key v d n key (ap (λ r. r.1) e) ∙ rw (str_eq_refl key) refl)

  -- The same after operations that do not write to the key
  held_after :
      (c stored : C) (key v : Str) (d : ℕ) (ops : List Op)
      → cache.set_and_expire c key v (pos (d * 1000000)) ≡ (stored, none)
      → AllOk cache laws stored ops
      → last_write key ops ≡ none
      → laws.value_at (apply_all cache laws stored ops) 0 key
        ≡ (if laws.lives d (elapsed ops) then some v else none)
  held_after c stored key v d ops e ok untouched =
      value_at-apply_all cache laws ops stored key ok
      ∙ (ap (remains laws.lives (λ t. laws.value_at stored t key) (elapsed ops)) untouched
          ∙ stored_for c stored key v d (elapsed ops) e)

  -- Nothing, where the last write to the key is a Delete
  removed_after :
      (c : C) (key : Str) (since : ℕ) (ops : List Op)
      → AllOk cache laws c ops
      → last_write key ops ≡ some (removed, since)
      → laws.value_at (apply_all cache laws c ops) 0 key ≡ none
  removed_after c key since ops ok gone =
      value_at-apply_all cache laws ops c key ok
      ∙ ap (remains laws.lives (λ t. laws.value_at c t key) (elapsed ops)) gone

  module _ (prefix token company : Str) where
    -- Without a value for its key a token is answered by 401.
    nothing_held :
        (c : C)
        → laws.value_at c 0 (prefix ++ token) ≡ none
        → (cache.get c (prefix ++ token)).err ≡ none
        → token ≢ []
        → auth cache c prefix token company ≡ abort status_unauthorized login_first
    unfolding is_blank trim_left str_eq
    nothing_held c e read ne =
        auth-found cache c prefix token company [] ne
          (reader-value_at c (prefix ++ token) none e read) refl

    -- On a cache on which values expire, a server stores the four fields for a token that is not empty,
    -- with an expiry in milliseconds and without an error; the first three fields have no dash, and
    -- there is a company code. After any operations that do not write to the token's key, the
    -- middleware goes on with the fields if the expiry is 0 or if less time than the expiry has passed,
    -- and answers 401 if more has. After any operations of which the last write to the key is a Delete
    -- it answers 401. Time passes as the operations say, none of them has an error, and the cache can be
    -- read for the request.
    pub token_lifecycle :
        (expiry : Expiry) (c stored : C) (uid name role rest : Str) (d since : ℕ)
        (ops more : List Op)
        → laws.lives ≡ expiry.lives
        → cache.set_and_expire c
            (prefix ++ token)
            (token_value uid name role rest)
            (pos (d * 1000000))
          ≡ (stored, none)
        → AllOk cache laws stored ops
        → last_write (prefix ++ token) ops ≡ none
        → (cache.get (apply_all cache laws stored ops) (prefix ++ token)).err ≡ none
        → AllOk cache laws stored more
        → last_write (prefix ++ token) more ≡ some (removed, since)
        → (cache.get (apply_all cache laws stored more) (prefix ++ token)).err ≡ none
        → token ≢ []
        → Lacks b'-' uid
        → Lacks b'-' name
        → Lacks b'-' role
        → company_code_of company uid ≢ []
        → ((d ≡ 0) ⊎ (elapsed ops < d)
            → auth cache (apply_all cache laws stored ops) prefix token company
              ≡ next uid name role (company_code_of company uid))
          × ((0 < d) × (d < elapsed ops)
              → auth cache (apply_all cache laws stored ops) prefix token company
                ≡ abort status_unauthorized login_first)
          × (auth cache (apply_all cache laws stored more) prefix token company
              ≡ abort status_unauthorized login_first)
    token_lifecycle expiry c stored uid name role rest d since ops more same put ok kept read ok'
          gone read' ne hu hn hr hc =
        let key = prefix ++ token in
        let v = token_value uid name role rest in
        let holds = held_after c stored key v d ops put ok kept in
        let lives_as = ap (λ f. f d (elapsed ops)) same in
        (
          λ young.
              let alive : expiry.lives d (elapsed ops) ≡ true =
                lives_young expiry d (elapsed ops) young in
              auth_accepts (reader cache (apply_all cache laws stored ops)) prefix token company uid
                name role rest ne
                (reader-value_at _ key (some v) (holds ∙ rw (lives_as, alive) refl) read) hu hn hr
                hc,
          λ (timed, old).
              let dead : expiry.lives d (elapsed ops) ≡ false =
                expiry.after d (elapsed ops) timed old in
              nothing_held _ (holds ∙ rw (lives_as, dead) refl) read ne,
          nothing_held _ (removed_after stored key since more ok' gone) read' ne,
        )
