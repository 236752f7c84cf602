-- ===== src/Http.antt =====
-- pkg/wkhttp/http.go: the request context, paging, roles and the middlewares. gin is not modelled:
-- a handler gets the request's headers and query as functions, and what it asks gin to do is its
-- result.
pub mod Auth
pub mod Roles
pub mod Context
pub mod Pooled
pub mod Page
mod Tests
use jian_yu_server_lib.Base.{
  ℕ, ◌+◌, ◌<◌, ◌≡◌, Bool, true, false, ◌||◌, Option, none, some, List, [], ◌∷◌, ◌++◌, ltb, length,
  if◌then◌else◌,
}
use jian_yu_server_lib.Base.Int.{ℤ, pos, negsuc}
use jian_yu_server_lib.Strings.{Str, str, str_eq, split, is_blank}
use jian_yu_server_lib.Strings.Parse.{parse_int}

-- Role codes.
abbrev pub role_super_admin : Str
role_super_admin = str "super_admin"

abbrev pub valid_roles : List Str
valid_roles =
    role_super_admin
    ∷ str "ga_admin"
    ∷ str "game_admin"
    ∷ str "company_admin"
    ∷ str "normal_admin"
    ∷ str "readonly_admin"
    ∷ []

-- A lookup in the set `validRoles`.
pub is_one_of : Str → List Str → Bool
is_one_of role [] = false
is_one_of role (r ∷ rs) = str_eq role r || is_one_of role rs

pub data RoleError : Type 0 where
  no_role not_allowed : RoleError

-- CheckLoginRole; `none` is a nil error
unfoldable pub check_login_role : Str → Option RoleError
check_login_role role =
    if str_eq role []
    then some no_role
    else if is_one_of role valid_roles
    then none
    else some not_allowed

-- CheckLoginRoleIsSuperAdmin
unfoldable pub check_login_role_is_super_admin : Str → Option RoleError
check_login_role_is_super_admin role =
    if str_eq role []
    then some no_role
    else if str_eq role role_super_admin
    then none
    else some not_allowed

-- A page parameter: what is not positive becomes the default.
abbrev positive_or : ℕ → ℤ → ℕ
positive_or default (pos n) = if ltb 0 n then n else default
positive_or default (negsuc n) = default

-- GetPage, from the two query parameters. A number that does not parse is 0, and one that is out of
-- range is cut off.
unfoldable pub get_page : Str → Str → ℕ × ℕ
get_page page_index page_size =
    (positive_or 1 (parse_int page_index).value, positive_or 15 (parse_int page_size).value)

-- UidCompanyCode
abbrev first_or_empty : List Str → Str
first_or_empty [] = []
first_or_empty (p ∷ ps) = p

-- The separator "code" behind its first byte.
abbrev pub code_tail : Str
code_tail = b'o' ∷ b'd' ∷ b'e' ∷ []

unfoldable pub uid_company_code : Str → Str
uid_company_code uid = first_or_empty (split uid b'c' code_tail)

-- `cache.Get`: a missing key is the empty string, and an error is a failure of the cache.
pub data CacheReply : Type 0 where
  found : Str → CacheReply
  broken : CacheReply

-- GetLoginUIDWithErr
unfoldable pub get_login_uid_with_err : Str → Str → (Str → CacheReply) → CacheReply
get_login_uid_with_err token token_prefix cache = cache (token_prefix ++ token)

-- GetLoginUID
unfoldable pub get_login_uid : Str → Str → (Str → CacheReply) → Str
unfolding get_login_uid_with_err
get_login_uid token token_prefix cache = elim (get_login_uid_with_err token token_prefix cache) [
  | found uid ↦ uid
  | broken ↦ []
]

pub data AuthMessage : Type 0 where
  empty_token busy login_first bad_token bad_company_code : AuthMessage

-- What the middleware has gin do: abort with a status and a message, or store four values and go on.
pub data Decision : Type 0 where
  abort : ℕ → AuthMessage → Decision
  next : Str → Str → Str → Str → Decision

abbrev pub status_unauthorized : ℕ
status_unauthorized = 401

abbrev pub status_service_unavailable : ℕ
status_service_unavailable = 503

-- The company code of the header, or of the uid.
unfoldable pub company_code_of : Str → Str → Str
company_code_of header uid = if str_eq header [] then uid_company_code uid else header

-- The last part of the middleware: `len(uidAndNames) < 4`, the company code, the values to store.
unfoldable pub authorize : Str → List Str → Decision
authorize company_header (uid ∷ name ∷ role ∷ device ∷ more) =
    let company_code = company_code_of company_header uid in
    if str_eq company_code []
    then abort status_unauthorized bad_company_code
    else next uid name role company_code
authorize company_header parts = abort status_unauthorized bad_token

-- The separator "-|@Sass" behind its first byte.
abbrev pub sass_tail : Str
sass_tail = b'|' ∷ b'@' ∷ b'S' ∷ b'a' ∷ b's' ∷ b's' ∷ []

-- AuthMiddleware, from the headers `token` and `companyCode`.
unfoldable pub auth_middleware : (Str → CacheReply) → Str → Str → Str → Decision
auth_middleware cache token_prefix token company_header =
    if str_eq token []
    then abort status_unauthorized empty_token
    else elim (get_login_uid_with_err token token_prefix cache) [
      | broken ↦ abort status_service_unavailable busy
      | found uid_and_name ↦
          if is_blank uid_and_name
          then abort status_unauthorized login_first
          else authorize company_header (split uid_and_name b'-' sass_tail)
    ]

-- CORSMiddleware: the four headers are set in any case, and the preflight request ends here.
pub data CorsDecision : Type 0 where
  abort_with_status : ℕ → CorsDecision
  go_on : CorsDecision

unfoldable pub cors_middleware : Str → List (Str × Str) × CorsDecision
cors_middleware method = (
  (str "Access-Control-Allow-Origin", str "*")
      ∷ (str "Access-Control-Allow-Credentials", str "true")
      ∷ (
        str "Access-Control-Allow-Headers",
        str
            "Content-Type, Content-Length, Accept-Encoding, X-CSRF-Token, token,companyCode, accept, origin, Cache-Control, X-Requested-With, appid, noncestr, sign, timestamp",
      )
      ∷ (str "Access-Control-Allow-Methods", str "POST, OPTIONS, GET, PUT,DELETE,PATCH")
      ∷ [],
  if str_eq method (str "OPTIONS") then abort_with_status 204 else go_on,
)
