-- ===== src/Http/Tests.antt =====
-- Runs of the request functions, and the theorems about them at concrete requests.
use jian_yu_server_lib.Strings.Parse.{parse_uint, parse_int}
use jian_yu_server_lib.Base.Outcome.{returned, panicked}
use jian_yu_server_lib.Base.{ℕ, ◌+◌, ◌≤◌, All, ◌≡◌, ◌≢◌, ◌↔◌, refl, none, some, [], ◌∷◌, arith}
use jian_yu_server_lib.Strings.{split, space_width, is_blank, str_eq, Str, str}
use jian_yu_server_lib.Http.{
  AuthMessage, authorize, get_login_uid_with_err, is_one_of, CacheReply, found, broken, abort, next,
  busy, get_page, uid_company_code, company_code_of, auth_middleware, status_service_unavailable,
  check_login_role, check_login_role_is_super_admin, cors_middleware, abort_with_status,
  not_allowed, no_role,
}
use jian_yu_server_lib.Http.Context.{
  login, stored, login_uid, must_get_string, get, text_of, login-auth_middleware,
}
use jian_yu_server_lib.Http.Pooled.{
  Serving, Serves, begins, allocates, returns, enter, leave, reset, allocate_context, idle, Carries,
  times, contexts, handlers_apart,
}
use jian_yu_server_lib.Http.Auth.{token_value, busy_iff, auth_accepts, auth_sound}

abbrev user : Str
user = b'7' ∷ b'c' ∷ b'o' ∷ b'd' ∷ b'e' ∷ b'1' ∷ []

abbrev name : Str
name = b'A' ∷ b'n' ∷ []

abbrev role : Str
role = b'r' ∷ []

abbrev cache : Str → CacheReply
cache _ = found (token_value user name role [])

abbrev token : Str
token = b't' ∷ []

abbrev prefix : Str
prefix = b'p' ∷ []

abbrev company : Str
company = b'9' ∷ []

pages : get_page (str "-3") (str "20") ≡ (1, 20)
unfolding get_page str parse_int parse_uint
pages = refl

roles :
    (check_login_role (str "ga_admin") ≡ none)
    × (check_login_role_is_super_admin (str "ga_admin") ≡ some not_allowed)
    × (check_login_role [] ≡ some no_role)
unfolding check_login_role check_login_role_is_super_admin str str_eq is_one_of
roles = (refl, refl, refl)

preflight : (cors_middleware (str "OPTIONS")).1 ≡ abort_with_status 204
unfolding cors_middleware str str_eq
preflight = refl

auth_runs : auth_middleware cache prefix token [] ≡ next user name role (b'7' ∷ [])
unfolding auth_middleware str_eq get_login_uid_with_err is_blank space_width authorize split
    company_code_of uid_company_code
auth_runs = refl

busy_iff_example :
    (((msg : AuthMessage) × (auth_middleware (λ _. broken) prefix token company
          ≡ abort status_service_unavailable msg))
      ↔ ((token ≢ []) × (broken ≡ broken)))
    × ((auth_middleware (λ _. broken) prefix token company ≡ abort status_service_unavailable busy)
        ↔ ((token ≢ []) × (broken ≡ broken)))
busy_iff_example = busy_iff (λ _. broken) prefix token company

auth_accepts_example :
    auth_middleware cache prefix token company ≡ next user name role (company_code_of company user)
unfolding company_code_of str_eq
auth_accepts_example =
    auth_accepts cache prefix token company user name role [] (λ e. cc) refl (omega arith)
      (omega arith) (omega arith) (λ e. cc)

auth_sound_example :
    (token ≢ [])
    × (company ≢ [])
    × (company ≡ company_code_of company user)
    × ((rest : Str) × (found (token_value user name role [])
          ≡ found (token_value user name role rest)))
unfolding auth_middleware str_eq get_login_uid_with_err is_blank space_width authorize split
    company_code_of
auth_sound_example = auth_sound cache prefix token company refl

login-auth_middleware_example :
    login (stored (auth_middleware cache prefix token company) [])
    ≡ returned (record {
      uid = user;
      name = name;
      company_code = company_code_of company user;
      role = role;
    })
unfolding company_code_of str_eq
login-auth_middleware_example =
    login-auth_middleware cache prefix token company user name role [] [] (λ e. cc) refl
      (omega arith) (omega arith) (omega arith) (λ e. cc)

-- Without the middleware the uid is missing.
login_uid_panics : login_uid [] ≡ panicked
unfolding login_uid must_get_string get text_of
login_uid_panics = refl

-- Two requests that overlap, the second of which goes on when the first has returned
abbrev overlapping : Serving
overlapping =
    leave (enter (allocate_context (enter (allocate_context idle) 0 7)) 1 8) 0 ((1, 8) ∷ [])

overlapping-Serves : Serves overlapping
unfolding enter allocate_context reset leave
overlapping-Serves = returns ((1, 8) ∷ []) [] 0 7 (allocates 8 (allocates 7 begins)) refl

handlers_apart_example :
    All (Carries overlapping.heap) overlapping.running
    × ((a : ℕ) → times a (contexts overlapping.running) + times a overlapping.free ≤ 1)
handlers_apart_example = handlers_apart overlapping overlapping-Serves
