-- ===== src/Http/Auth.antt =====
-- What the authentication middleware promises.
use jian_yu_server_lib.Base.{
  ℕ, ◌≡◌, ◌≢◌, ◌↔◌, ◌⊎◌, inl, inr, refl, sym, ap, ◌∙◌, false, List, [], ◌∷◌, ◌++◌, arith,
  Bool-cases, Lacks,
}
use jian_yu_server_lib.Strings.{Str, split, join, is_blank}
use jian_yu_server_lib.Strings.Laws.{str_eq_iff, ne→str_eq, join-split, split-append, split-ne-nil}
use jian_yu_server_lib.Strings.Blank.{is_blank-Lacks}
use jian_yu_server_lib.Http.{
  CacheReply, found, broken, get_login_uid_with_err, abort, next, busy, AuthMessage,
  company_code_of, authorize, auth_middleware, sass_tail, status_service_unavailable,
}

-- "-|@Sass"
abbrev pub separator : Str
separator = b'-' ∷ sass_tail

-- The text that the cache holds for a token: four fields, and what a later field may add.
abbrev pub token_value : Str → Str → Str → Str → Str
token_value uid name role rest =
    uid ++ (separator ++ (name ++ (separator ++ (role ++ (separator ++ rest)))))

CacheReply-cases : (r : CacheReply) → (r ≡ broken) ⊎ ((text : Str) × (r ≡ found text))
CacheReply-cases broken = inl refl
CacheReply-cases (found text) = inr (text, refl)

authorize-ne-unavailable :
    (company : Str) (msg : AuthMessage) (parts : List Str)
    → authorize company parts ≢ abort status_service_unavailable msg
unfolding authorize
authorize-ne-unavailable company msg [] h = ground arith
authorize-ne-unavailable company msg (u ∷ []) h = ground arith
authorize-ne-unavailable company msg (u ∷ n ∷ []) h = ground arith
authorize-ne-unavailable company msg (u ∷ n ∷ r ∷ []) h = ground arith
authorize-ne-unavailable company msg (u ∷ n ∷ r ∷ d ∷ more) h = ground arith

unavailable_inv :
    (cache : Str → CacheReply) (prefix token company : Str) (msg : AuthMessage)
    → auth_middleware cache prefix token company ≡ abort status_service_unavailable msg
    → (token ≢ []) × (cache (prefix ++ token) ≡ broken)
unfolding auth_middleware get_login_uid_with_err
unavailable_inv cache prefix token company msg h = (
  λ e. ground (arith, str_eq_iff token []),
  elim (CacheReply-cases (cache (prefix ++ token))) [
    | inl e ↦ e
    | inr (text, e) ↦
        absurd (ground (arith, authorize-ne-unavailable company msg (split text b'-' sass_tail)))
  ],
)

-- A cache failure is answered by 503, and nothing else is: the middleware aborts with status 503,
-- whatever the message, exactly when there is a token and the cache could not be asked for it, and
-- the message then is that the system is busy.
pub busy_iff :
    (cache : Str → CacheReply) (prefix token company : Str)
    → (((msg : AuthMessage) × (auth_middleware cache prefix token company
            ≡ abort status_service_unavailable msg))
        ↔ ((token ≢ []) × (cache (prefix ++ token) ≡ broken)))
      × ((auth_middleware cache prefix token company ≡ abort status_service_unavailable busy)
          ↔ ((token ≢ []) × (cache (prefix ++ token) ≡ broken)))
unfolding auth_middleware get_login_uid_with_err
busy_iff cache prefix token company =
    let answered : (token ≢ []) × (cache (prefix ++ token) ≡ broken)
        → auth_middleware cache prefix token company ≡ abort status_service_unavailable busy =
      λ (ne, e). ground (arith, ne→str_eq token [] ne) in
    (
      (
        λ (msg, h). unavailable_inv cache prefix token company msg h,
        λ unread. (busy, answered unread),
      ),
      (λ h. unavailable_inv cache prefix token company busy h, answered),
    )

Lacks-split : (d : ℕ) (a b : Str) → Lacks d (a ++ b) → Lacks d b
Lacks-split d [] b h = h
Lacks-split d (c ∷ a) b h = Lacks-split d a b h.1

token_value-not_blank :
    (uid name role rest : Str) → is_blank (token_value uid name role rest) ≡ false
token_value-not_blank uid name role rest =
    elim (Bool-cases (is_blank (token_value uid name role rest))) [
      | inl blank ↦ absurd (
          (Lacks-split b'-' uid _ (is_blank-Lacks b'-' (omega arith) (omega arith) _ blank)).0 refl)
      | inr other ↦ other
    ]

authorize_fields :
    (company uid name role : Str) (more : List Str)
    → more ≢ []
    → company_code_of company uid ≢ []
    → authorize company (uid ∷ name ∷ role ∷ more)
      ≡ next uid name role (company_code_of company uid)
unfolding authorize
authorize_fields company uid name role [] ne hc = absurd (ne refl)
authorize_fields company uid name role (d ∷ more) ne hc = rw (ne→str_eq _ [] hc)

module _ (cache : Str → CacheReply) (prefix token company uid name role rest : Str) where
  -- A token that is not empty and whose cached value has the four fields, the first three of them
  -- without a dash, is accepted where the company code, of the header or else of the uid, is not
  -- empty: the middleware goes on with those fields and that code.
  pub auth_accepts :
      token ≢ []
      → cache (prefix ++ token) ≡ found (token_value uid name role rest)
      → Lacks b'-' uid
      → Lacks b'-' name
      → Lacks b'-' role
      → company_code_of company uid ≢ []
      → auth_middleware cache prefix token company
        ≡ next uid name role (company_code_of company uid)
  unfolding auth_middleware get_login_uid_with_err
  auth_accepts ne e hu hn hr hc =
      rw
        (
          ne→str_eq token [] ne,
          e,
          token_value-not_blank uid name role rest,
          split-append uid _ b'-' sass_tail hu,
          split-append name _ b'-' sass_tail hn,
          split-append role rest b'-' sass_tail hr,
        )
        (authorize_fields company uid name role (split rest b'-' sass_tail)
          (split-ne-nil rest b'-' sass_tail) hc)

authorize_inv :
    (company : Str) (parts : List Str) {uid name role code : Str}
    → authorize company parts ≡ next uid name role code
    → (d : Str) × (more : List Str) × (parts ≡ uid ∷ name ∷ role ∷ d ∷ more)
      × (code ≡ company_code_of company uid)
      × (code ≢ [])
unfolding authorize
authorize_inv company [] h = cc
authorize_inv company (u ∷ []) h = cc
authorize_inv company (u ∷ n ∷ []) h = cc
authorize_inv company (u ∷ n ∷ r ∷ []) h = cc
authorize_inv company (u ∷ n ∷ r ∷ d ∷ more) {uid} {code} h = (
  d,
  more,
  ground arith,
  ground arith,
  λ e. ground (arith, str_eq_iff (company_code_of company u) []),
)

-- Where the middleware goes on, the token is not empty, the cache holds the stored fields for it,
-- and the company code is that of the header, or else of the uid, and not empty.
pub auth_sound :
    (cache : Str → CacheReply) (prefix token company : Str) {uid name role code : Str}
    → auth_middleware cache prefix token company ≡ next uid name role code
    → (token ≢ [])
      × (code ≢ [])
      × (code ≡ company_code_of company uid)
      × ((rest : Str) × (cache (prefix ++ token) ≡ found (token_value uid name role rest)))
unfolding auth_middleware get_login_uid_with_err
auth_sound cache prefix token company {uid} {name} {role} {code} h =
    elim (CacheReply-cases (cache (prefix ++ token))) [
      | inl e ↦ absurd (ground arith)
      | inr (text, e) ↦
          let passed : authorize company (split text b'-' sass_tail) ≡ next uid name role code =
            ground arith in
          let (d, more, parts, same, filled) = authorize_inv company _ passed in
          (
            λ none_given. ground (arith, str_eq_iff token []),
            filled,
            same,
            (
              join (d ∷ more) separator,
              e
                  ∙ ap found (
                      sym (join-split text b'-' sass_tail)
                      ∙ (unfold join in ap (λ ps. join ps separator) parts)),
            ),
          )
    ]
