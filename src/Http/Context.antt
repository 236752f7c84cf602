-- ===== src/Http/Context.antt =====
-- pkg/wkhttp/http.go: what a handler answers and what it reads of the request's context, and the
-- contexts that handlers share by a pool. The keys of a gin context are kept as a list in which a
-- later entry hides an earlier one.
use jian_yu_server_lib.Base.{
  ℕ, ◌≡◌, refl, Option, none, some, List, [], ◌∷◌, ◌++◌, ◌≢◌, Lacks, if◌then◌else◌,
}
use jian_yu_server_lib.Base.Outcome.{Outcome, returned, panicked, ◌>>=◌}
use jian_yu_server_lib.Strings.{Str, str, str_eq}
use jian_yu_server_lib.Base.Int.{ℤ}
use jian_yu_server_lib.Im.Json.{Json, object, string, nat, number}
use jian_yu_server_lib.Http.Auth.{token_value, auth_accepts}
use jian_yu_server_lib.Http.{
  CacheReply, found, company_code_of, auth_middleware, Decision, abort, next,
}

-- The values that a gin context keeps under its keys: texts, and what is no text.
pub data Stored : Type 0 where
  text : Str → Stored
  another : Stored

abbrev pub Keys : Type 0
Keys = List (Str × Stored)

-- The answers of a handler: a status and a JSON body
pub record Answer : Type 0 where
  pub status : ℕ
  pub body : Json

abbrev pub status_ok : ℕ
status_ok = 200

abbrev pub status_bad_request : ℕ
status_bad_request = 400

-- ResponseError, of the error's text
unfoldable pub response_error : Str → Answer
response_error err = record {
  status = status_bad_request;
  body = object (("msg", string err) ∷ ("status", nat status_bad_request) ∷ []);
}

-- ResponseErrorf; that an error is logged is left out.
unfoldable pub response_errorf : Str → Answer
response_errorf msg = record {
  status = status_bad_request;
  body = object (("msg", string msg) ∷ ("status", nat status_bad_request) ∷ []);
}

-- ResponseErrorWithStatus: the status given is that of the body.
unfoldable pub response_error_with_status : Str → ℤ → Answer
response_error_with_status err status = record {
  status = status_bad_request;
  body = object (("msg", string err) ∷ ("status", number status) ∷ []);
}

-- ResponseOK
unfoldable pub response_ok : Answer
response_ok = record { status = status_ok; body = object (("status", nat status_ok) ∷ []) }

-- Response
unfoldable pub response : Json → Answer
response data_value = record { status = status_ok; body = data_value }

-- ResponseWithStatus
unfoldable pub response_with_status : ℕ → Json → Answer
response_with_status status data_value = record { status = status; body = data_value }

-- gin's Get
unfoldable pub get : Str → Keys → Option Stored
get key [] = none
get key ((k, v) ∷ keys) = let rest = get key keys in if str_eq key k then some v else rest

-- gin's Set
abbrev pub set : Str → Stored → Keys → Keys
set key v keys = (key, v) ∷ keys

-- `c.MustGet(key).(string)`: it panics for a missing key and for a value that is no text.
unfoldable pub text_of : Option Stored → Outcome Str
text_of none = panicked
text_of (some (text s)) = returned s
text_of (some another) = panicked

unfoldable pub must_get_string : Str → Keys → Outcome Str
unfolding get text_of
must_get_string key keys = text_of (get key keys)

-- GetLoginUID of a context
unfoldable pub login_uid : Keys → Outcome Str
unfolding must_get_string
login_uid keys = must_get_string (str "uid") keys

-- GetCompanyCode
unfoldable pub get_company_code : Keys → Outcome Str
unfolding must_get_string
get_company_code keys = must_get_string (str "companyCode") keys

-- GetLoginName
unfoldable pub get_login_name : Keys → Outcome Str
unfolding must_get_string
get_login_name keys = must_get_string (str "name") keys

-- GetLoginRole: gin's GetString is the empty text where there is none.
string_or_empty : Option Stored → Str
string_or_empty (some (text s)) = s
string_or_empty o = []

unfoldable pub get_login_role : Keys → Str
unfolding get string_or_empty
get_login_role keys = string_or_empty (get (str "role") keys)

-- The four calls of Set at the end of AuthMiddleware.
unfoldable pub stored : Decision → Keys → Keys
stored (next uid name role company_code) keys =
    set (str "companyCode") (text company_code) (
      set (str "role") (text role) (set (str "name") (text name) (set (str "uid") (text uid) keys)))
stored (abort status message) keys = keys

-- What a handler behind the middleware reads first: who is logged in, for which company, and
-- whether the role is one that may do anything.
pub record Login : Type 0 where
  pub uid : Str
  pub name : Str
  pub company_code : Str
  pub role : Str

abbrev pub login : Keys → Outcome Login
login keys = login_uid keys >>= λ u. get_login_name keys >>= λ n. get_company_code keys >>= λ c.
    returned (record { uid = u; name = n; company_code = c; role = get_login_role keys })

login-stored :
    (uid name role company_code : Str) (keys : Keys)
    → login (stored (next uid name role company_code) keys)
      ≡ returned (record { uid = uid; name = name; company_code = company_code; role = role })
unfolding login_uid get_company_code get_login_name get_login_role stored must_get_string get str
    str_eq text_of string_or_empty
login-stored uid name role company_code keys = refl

-- A handler behind the authentication middleware reads, without a panic, the user, the name and the
-- role that the cache holds for the token and the company code of the header or else of the user,
-- whatever keys the context has had before: where the token is not empty, the cached value has the
-- four fields, the first three without a dash, and there is a company code.
pub login-auth_middleware :
    (cache : Str → CacheReply) (prefix token company uid name role rest : Str) (keys : Keys)
    → token ≢ []
    → cache (prefix ++ token) ≡ found (token_value uid name role rest)
    → Lacks b'-' uid
    → Lacks b'-' name
    → Lacks b'-' role
    → company_code_of company uid ≢ []
    → login (stored (auth_middleware cache prefix token company) keys)
      ≡ returned (record {
        uid = uid;
        name = name;
        company_code = company_code_of company uid;
        role = role;
      })
login-auth_middleware cache prefix token company uid name role rest keys ne e hu hn hr hc =
    rw (auth_accepts cache prefix token company uid name role rest ne e hu hn hr hc)
      (login-stored uid name role (company_code_of company uid) keys)
