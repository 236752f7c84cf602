-- ===== src/Util/Tests.antt =====
-- Concrete texts.
use mathlib.Core.List.Perm
use jian_yu_server_lib.Base.{
  ℕ, ◌≡◌, refl, true, false, Option, none, some, List, [], ◌∷◌, All, length, arith,
}
use jian_yu_server_lib.Base.Outcome.{returned}
use jian_yu_server_lib.Base.Int.{pos}
use jian_yu_server_lib.Strings.{
  Str, str, str_eq, itoa, join, has_prefix, split, trim_space, trim_right, is_blank, space_width,
}
use package.jian_yu_server_lib.Util.Query.{
  map_to_query_param_sort, assignments, assignment, value_text, query_loop, query_turn,
  without_last, map_to_query_param_sort_lem,
}
use package.jian_yu_server_lib.Util.Ip.{is_intranet, dotted, is_intranet-dotted}
use package.jian_yu_server_lib.Util.Addresses.{
  Iface, ip_addr, no_ip, get_intranet_ip, get_client_public_ip, first_ip, is_skipped, intranet_loop,
  intranet_addrs,
}
use package.jian_yu_server_lib.Util.Underscore.{to_lower, ends_word, underscore_name}
use package.jian_yu_server_lib.Util.Random.{
  get_random_string, IsAlphanumeric, get_random_string_lem,
}
use package.jian_yu_server_lib.Util.Repeated.{repeated, remove_repeated_element}
use package.jian_yu_server_lib.Util.Base62.{
  ten_to_hex, ten_to_hex_loop, ten_value_to_char, value_of, written_all, ten_to_hex_lem,
}
use package.jian_yu_server_lib.Util.Sign.{
  Params, get_sign_str, sign_sorted, sign_loop, sign_turn, obj_to_str, string, integer, sort,
  insert, less,
}

ten_to_hex_runs :
    (ten_to_hex (pos 719) ≡ str "bB")
    × (ten_to_hex (pos 33) ≡ str "s")
    × (ten_to_hex (pos 28) ≡ str "s")
unfolding ten_to_hex ten_to_hex_loop ten_value_to_char str
ten_to_hex_runs = (refl, refl, refl)

abbrev params : Params
params = (str "pay", integer (pos 7)) ∷ (str "app", string (str "x")) ∷ []

get_sign_str_runs : get_sign_str params ≡ str "pay=7"
unfolding get_sign_str sign_sorted sign_loop sign_turn sort insert less obj_to_str itoa str
get_sign_str_runs = refl

remove_repeated_element_runs :
    remove_repeated_element (str "a" ∷ str "b" ∷ str "a" ∷ []) ≡ str "b" ∷ str "a" ∷ []
unfolding remove_repeated_element repeated str_eq str
remove_repeated_element_runs = refl

abbrev a_query : Params
a_query =
    (b'b' ∷ [], string (b'2' ∷ [])) ∷ (b'a' ∷ [], string (b'1' ∷ [])) ∷ (b'c' ∷ [], string []) ∷ []

abbrev another_order : Params
another_order =
    (b'a' ∷ [], string (b'1' ∷ [])) ∷ (b'b' ∷ [], string (b'2' ∷ [])) ∷ (b'c' ∷ [], string []) ∷ []

map_to_query_param_sort_lem_example :
    (map_to_query_param_sort a_query ≡ join (assignments (sort a_query)) (b'&' ∷ []))
    × (map_to_query_param_sort another_order ≡ map_to_query_param_sort a_query)
map_to_query_param_sort_lem_example =
    map_to_query_param_sort_lem a_query another_order
      (((λ e. ground arith), ((λ e. ground arith), tt)), (((λ e. ground arith), tt), (tt, tt)))
      (Perm.swap _ _ _)

query_runs : map_to_query_param_sort a_query ≡ str "a=1&b=2"
unfolding map_to_query_param_sort query_loop query_turn assignment value_text without_last sort
    insert less str
query_runs = refl

is_intranet-dotted_example : is_intranet (dotted 172 20 0 1) ≡ true
is_intranet-dotted_example = is_intranet-dotted 172 20 0 1 (omega arith) (omega arith)

abbrev two_ifaces : Option (List Iface)
two_ifaces = some (
    record { up = true; loopback = true; name = str "lo"; addrs = none }
    ∷ record {
      up = true;
      loopback = false;
      name = str "eth0";
      addrs = some (ip_addr false (some (str "10.0.0.7")) ∷ no_ip ∷ []);
    }
    ∷ [])

intranet_runs : get_intranet_ip two_ifaces ≡ (str "10.0.0.7" ∷ [], false)
unfolding get_intranet_ip intranet_loop intranet_addrs is_intranet is_skipped has_prefix str
intranet_runs = refl

client_ip_runs :
    get_client_public_ip (λ s. none) (str " , 1.2.3.4 ,5.6.7.8") (str "9.9.9.9") [] ≡ str "1.2.3.4"
unfolding get_client_public_ip first_ip str str_eq split trim_space trim_right is_blank space_width
client_ip_runs = refl

underscore_name_runs :
    (underscore_name (str "HTTPServerID2X") ≡ str "http_server_id2_x")
    × (underscore_name (str "myName") ≡ str "my_name")
unfolding underscore_name ends_word to_lower str
underscore_name_runs = (refl, refl)

abbrev zeros : ℕ → ℕ → ℕ
zeros i n = 0

get_random_string_lem_example :
    (s : Str) × (get_random_string zeros 8 ≡ returned s) × (length s ≡ 8) × All IsAlphanumeric s
get_random_string_lem_example = get_random_string_lem zeros 8 (λ i n h. h)

-- 719 is b, B in base 62.
ten_to_hex_lem_example :
    ten_to_hex (pos (value_of 11 (37 ∷ 5 ∷ []))) ≡ written_all (11 ∷ 37 ∷ 5 ∷ [])
ten_to_hex_lem_example =
    ten_to_hex_lem 11 (37 ∷ 5 ∷ []) (omega arith) (omega arith, (omega arith, (omega arith, tt)))
