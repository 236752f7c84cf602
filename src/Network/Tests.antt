-- ===== src/Network/Tests.antt =====
-- A form at concrete parameters, on a server that answers 200.
use jian_yu_server_lib.Base.{◌≡◌, ◌↔◌, refl, true, some, [], ◌∷◌}
use jian_yu_server_lib.Strings.{Str, str, str_eq, join}
use jian_yu_server_lib.Util.Query.{without_last}
use package.jian_yu_server_lib.Network.{
  Entries, Http, query_str_loop, form_of, form_request, set_headers, exchange, post_for_www_form,
  post_for_www_form_re_xml, posted,
}
use package.jian_yu_server_lib.Network.Form.{pairs, post_for_www_form_iff}

abbrev two_params : Entries
two_params = (str "to", str "7") ∷ (str "text", str "hi") ∷ []

abbrev echoing : Http
echoing = record {
  takes_url = λ url. true;
  do_request = λ request. some (record { status_code = 200; body = some request.body });
}

abbrev refusing : Http
refusing = record {
  takes_url = λ url. true;
  do_request = λ request. some (record { status_code = 500; body = some (str "no") });
}

form_runs : form_of two_params ≡ str "text=hi&to=7"
unfolding form_of query_str_loop str_eq without_last str
form_runs = refl

post_for_www_form_iff_example :
    (post_for_www_form (λ body. some body) echoing [] two_params [] ≡ some (str "text=hi&to=7")) ↔ (
      (body : Str) × (exchange echoing (form_request [] (join (pairs [] two_params) (b'&' ∷ [])) [])
        ≡ some (200, body))
      × (some body ≡ some (str "text=hi&to=7")))
post_for_www_form_iff_example =
    post_for_www_form_iff (λ body. some body) echoing [] two_params [] (str "text=hi&to=7")

-- Without a look at the status an error page is taken for the answer.
re_xml_runs : post_for_www_form_re_xml refusing [] two_params [] ≡ posted (str "no")
unfolding post_for_www_form_re_xml exchange form_request set_headers
re_xml_runs = refl
