-- ===== src/Network.antt =====
-- pkg/network/network.go: HTTP requests. The functions built on the REST library are a parameter of
-- the IM client; here are those that post a form. The HTTP client of the standard library is a
-- parameter: whether it takes a URL, and what it gives for a request.
pub mod Form
mod Tests
use jian_yu_server_lib.Base.{
  ℕ, ◌≡◌, refl, Bool, true, false, Option, none, some, List, [], ◌∷◌, ◌++◌, if◌then◌else◌, ◌==◌,
}
use jian_yu_server_lib.Strings.{Str, str, str_eq}
use jian_yu_server_lib.Util.Query.{without_last}

-- The entries of a map in the order in which Go visits them
abbrev pub Entries : Type 0
Entries = List (Str × Str)

-- A request: its URL, its headers, and its body
pub record Request : Type 0 where
  pub url : Str
  pub headers : Entries
  pub body : Str

-- A response: its status, and its body, `none` where reading it fails
pub record Response : Type 0 where
  pub status_code : ℕ
  pub body : Option Str

pub record Http : Type 0 where
  pub takes_url : Str → Bool
  pub do_request : Request → Option Response

-- The bytes and the error of a call: both where the status is not 200
pub data Posted : Type 0 where
  failed : Posted
  bad_status : Str → ℕ → Posted
  posted : Str → Posted

-- The loop that puts each parameter in front of the text
unfoldable pub query_str_loop : Str → Entries → Str
query_str_loop query_str [] = query_str
query_str_loop query_str ((key, value) ∷ params) =
    query_str_loop (key ++ (b'=' ∷ (value ++ (b'&' ∷ query_str)))) params

-- The form of the parameters
unfoldable pub form_of : Entries → Str
unfolding query_str_loop
form_of params =
    let text = query_str_loop [] params in if str_eq text [] then text else without_last text

-- `request.Header.Set`, which replaces what the header has been
unfoldable pub set_header : Str → Str → Entries → Entries
set_header key value [] = (key, value) ∷ []
set_header key value ((k, v) ∷ headers) =
    let rest = set_header key value headers in
    if str_eq key k then (key, value) ∷ headers else (k, v) ∷ rest

unfoldable pub set_headers : Entries → Entries → Entries
unfolding set_header
set_headers headers [] = headers
set_headers headers ((key, value) ∷ more) = set_headers (set_header key value headers) more

-- The request that all these functions make. (The keys of the headers are taken in the form that
-- `http.Header` gives them.)
unfoldable pub form_request : Str → Str → Entries → Request
unfolding set_headers
form_request url body headers = record {
  url = url;
  headers =
      set_header (str "Content-Type") (str "application/x-www-form-urlencoded")
        (set_headers [] headers);
  body = body;
}

-- Making the request, sending it and reading the body: `none` is an error of one of these.
unfoldable pub exchange : Http → Request → Option (ℕ × Str)
exchange http request =
    if http.takes_url request.url
    then elim (http.do_request request) [
      | none ↦ none
      | some resp ↦ elim resp.body [ none ↦ none | some body ↦ some (resp.status_code, body) ]
    ]
    else none

-- PostForWWWFormForBytres
unfoldable pub post_for_www_form_for_bytres : Http → Str → Entries → Entries → Posted
unfolding form_of form_request exchange
post_for_www_form_for_bytres http url params headers =
    elim (exchange http (form_request url (form_of params) headers)) [
      | none ↦ failed
      | some (status_code, body) ↦
          if status_code == 200 then posted body else bad_status body status_code
    ]

-- PostForWWWForm, where decoding JSON is a parameter
unfoldable pub post_for_www_form {ℓ} :
    {M : Type ℓ} → (Str → Option M) → Http → Str → Entries → Entries → Option M
unfolding post_for_www_form_for_bytres
post_for_www_form read_json http url params headers =
    elim (post_for_www_form_for_bytres http url params headers) [
      | failed ↦ none
      | bad_status body status_code ↦ none
      | posted body ↦ read_json body
    ]

-- PostForWWWFormForAll: there are no bytes with an error of the status.
unfoldable pub post_for_www_form_for_all : Http → Str → Str → Entries → Posted
unfolding form_request exchange
post_for_www_form_for_all http url body_data headers =
    elim (exchange http (form_request url body_data headers)) [
      | none ↦ failed
      | some (status_code, body) ↦
          if status_code == 200 then posted body else bad_status [] status_code
    ]

-- PostForWWWFormReXML: the status is not looked at.
unfoldable pub post_for_www_form_re_xml : Http → Str → Entries → Entries → Posted
unfolding form_of form_request exchange
post_for_www_form_re_xml http url params headers =
    elim (exchange http (form_request url (form_of params) headers)) [
      | none ↦ failed
      | some (status_code, body) ↦ posted body
    ]
