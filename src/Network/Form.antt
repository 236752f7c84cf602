-- ===== src/Network/Form.antt =====
-- The form that is posted, and when a post succeeds.
use jian_yu_server_lib.Base.{
  ℕ, ◌≡◌, ◌↔◌, inl, inr, refl, sym, ap, ◌∙◌, Option, none, some, List, [], ◌∷◌, ◌++◌, if◌then◌else◌,
  ◌==◌, arith, append_assoc, Bool-cases,
}
use jian_yu_server_lib.Strings.{Str, str_eq, join}
use jian_yu_server_lib.Util.Query.{without_last, terminated, without_last-terminated}
use jian_yu_server_lib.Strings.Laws.{str_eq_iff}
use jian_yu_server_lib.Network.{
  Entries, Http, query_str_loop, form_of, form_request, exchange, post_for_www_form_for_bytres,
  post_for_www_form,
}

-- The parameters as assignments, the last visited first, in front of `before`
unfoldable pub pairs : List Str → Entries → List Str
pairs before [] = before
pairs before ((key, value) ∷ params) = pairs ((key ++ (b'=' ∷ value)) ∷ before) params

terminated-assignment :
    (key value : Str) (before : List Str)
    → terminated ((key ++ (b'=' ∷ value)) ∷ before)
      ≡ key ++ (b'=' ∷ (value ++ (b'&' ∷ terminated before)))
unfolding terminated
terminated-assignment key value before = append_assoc key (b'=' ∷ value) (b'&' ∷ terminated before)

terminated-nil : terminated [] ≡ []
unfolding terminated
terminated-nil = refl

query_str_loop-terminated :
    (before : List Str) (params : Entries)
    → query_str_loop (terminated before) params ≡ terminated (pairs before params)
unfolding query_str_loop pairs
query_str_loop-terminated before [] = refl
query_str_loop-terminated before ((key, value) ∷ params) =
    ap (λ t. query_str_loop t params) (sym (terminated-assignment key value before))
    ∙ query_str_loop-terminated ((key ++ (b'=' ∷ value)) ∷ before) params

form_of-without_last : (params : Entries) → form_of params ≡ without_last (query_str_loop [] params)
unfolding form_of
form_of-without_last params = elim (Bool-cases (str_eq (query_str_loop [] params) [])) [
  | inl e ↦ rw e (rw ((str_eq_iff (query_str_loop [] params) []).0 e) (unfold without_last in refl))
  | inr e ↦ rw e refl
]

-- A form is its parameters as assignments with ampersands between them, the last visited first.
form_of-join : (params : Entries) → form_of params ≡ join (pairs [] params) (b'&' ∷ [])
form_of-join params =
    form_of-without_last params
    ∙ (ap (λ t. without_last (query_str_loop t params)) (sym terminated-nil)
        ∙ (ap without_last (query_str_loop-terminated [] params)
            ∙ without_last-terminated (pairs [] params)))

module _ {M : Type 0} (read_json : Str → Option M) (http : Http) (url : Str)
    (params headers : Entries) where
  value_of : Option (ℕ × Str) → Option M
  value_of none = none
  value_of (some (status_code, body)) = if status_code == 200 then read_json body else none

  post_for_www_form-value_of :
      (o : Option (ℕ × Str))
      → exchange http (form_request url (form_of params) headers) ≡ o
      → post_for_www_form read_json http url params headers ≡ value_of o
  unfolding post_for_www_form post_for_www_form_for_bytres value_of
  post_for_www_form-value_of none e = rw (e, post_for_www_form, post_for_www_form_for_bytres) refl
  post_for_www_form-value_of (some (status_code, body)) e = elim (Bool-cases (status_code == 200)) [
    | inl h ↦ rw (e, h, post_for_www_form, post_for_www_form_for_bytres) refl
    | inr h ↦ rw (e, h, post_for_www_form, post_for_www_form_for_bytres) refl
  ]

  value_of_iff :
      (m : M) (o : Option (ℕ × Str))
      → (value_of o ≡ some m) ↔ ((body : Str) × (o ≡ some (200, body)) × (read_json body ≡ some m))
  unfolding value_of
  value_of_iff m none = ((λ h. absurd cc), λ (body, e, read). absurd cc)
  value_of_iff m (some (status_code, body)) =
      (λ h. (body, ground arith, ground arith), λ (sent, e, read). ground arith)

  -- PostForWWWForm gives a value exactly if the request with the parameters as assignments, with
  -- ampersands between them and the last visited first, is answered with status 200 and a body
  -- that decodes to that value.
  pub post_for_www_form_iff :
      (m : M)
      → (post_for_www_form read_json http url params headers ≡ some m) ↔ (
          (body : Str) × (exchange http
              (form_request url (join (pairs [] params) (b'&' ∷ [])) headers)
            ≡ some (200, body))
          × (read_json body ≡ some m))
  post_for_www_form_iff m =
      rw
        (post_for_www_form-value_of _
          (ap (λ form. exchange http (form_request url form headers)) (form_of-join params)))
        (value_of_iff m _)
