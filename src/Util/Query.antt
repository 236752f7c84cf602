-- ===== src/Util/Query.antt =====
-- pkg/util/common.go: a map of parameters as the text of a query, sorted by its keys, and parts of
-- a text.
use mathlib.Core.List.{Perm, Permᴰ}
use mathlib.Core.List as List
use mathlib.Core.Logic.{∥∥₁_elim}
use native.Mathlib.Nat.{ℕ_set}
use jian_yu_server_lib.Base.{
  ℕ, ◌-◌, ◌≡◌, refl, sym, ap, ◌∙◌, List, [], ◌∷◌, ◌++◌, length, length-append, append_assoc,
  append-nil, Bool-cases, inl, inr, take, take-append_length, if◌then◌else◌, arith,
}
use jian_yu_server_lib.Strings.{Str, str, itoa, join}
use jian_yu_server_lib.Im.Send.{itoa_ℤ}
use package.jian_yu_server_lib.Util.Sign.{
  Value, string, integer, uint32, other, is_empty, Params, sort,
}
use package.jian_yu_server_lib.Util.Sorted.{DistinctKeys, sort-Permᴰ}

-- objToStr: a uint32 is printed by `%s`.
unfoldable pub value_text : Value → Str
value_text (string s) = s
value_text (integer n) = itoa_ℤ n
value_text (uint32 n) = str "%!s(uint32=" ++ (itoa n ++ str ")")
value_text (other s) = s

-- A key and its value
unfoldable pub assignment : Str → Value → Str
assignment k v = k ++ (b'=' ∷ value_text v)

-- One turn of the loop
unfoldable pub query_turn : Str → Str × Value → Str
query_turn strs (k, v) = if is_empty v then strs else strs ++ (assignment k v ++ (b'&' ∷ []))

unfoldable pub query_loop : Str → Params → Str
query_loop strs [] = strs
query_loop strs (p ∷ ps) = query_loop (query_turn strs p) ps

-- `strs[0 : len(strs)-1]` of a text that is not empty
unfoldable pub without_last : Str → Str
without_last strs = take (length strs - 1) strs

-- MapToQueryParamSort, from the entries of the map in the order that Go visits them in. (The empty
-- map is no case of its own: its text is empty by the loop too.)
unfoldable pub map_to_query_param_sort : Params → Str
map_to_query_param_sort [] = []
map_to_query_param_sort params = without_last (query_loop [] (sort params))

-- Sign, where MD5 is a parameter
unfoldable pub sign : (Str → Str) → Params → Str → Str
sign md5 params app_key = md5 (map_to_query_param_sort params ++ (str "&key=" ++ app_key))

-- The assignments of the values that are not empty
unfoldable pub assignments : Params → List Str
assignments [] = []
assignments ((k, v) ∷ ps) =
    let rest = assignments ps in if is_empty v then rest else assignment k v ∷ rest

-- Texts, each with an ampersand behind it
unfoldable pub terminated : List Str → Str
terminated [] = []
terminated (s ∷ ss) = s ++ (b'&' ∷ terminated ss)

query_loop-terminated :
    (strs : Str) (ps : Params) → query_loop strs ps ≡ strs ++ terminated (assignments ps)
unfolding query_loop query_turn assignments terminated
query_loop-terminated strs [] = sym (append-nil strs)
query_loop-terminated strs ((k, v) ∷ ps) = elim (Bool-cases (is_empty v)) [
  | inl e ↦ rw e (query_loop-terminated strs ps)
  | inr e ↦
      rw (e, query_loop-terminated (strs ++ (assignment k v ++ (b'&' ∷ []))) ps)
        (append_assoc strs (assignment k v ++ (b'&' ∷ [])) _
          ∙ ap (λ t. strs ++ t) (append_assoc (assignment k v) (b'&' ∷ []) _))
]

terminated-join :
    (s : Str) (ss : List Str) → terminated (s ∷ ss) ≡ join (s ∷ ss) (b'&' ∷ []) ++ (b'&' ∷ [])
unfolding terminated join
terminated-join s [] = refl
terminated-join s (t ∷ ss) =
    rw (terminated-join t ss) (sym (append_assoc s (b'&' ∷ join (t ∷ ss) (b'&' ∷ [])) (b'&' ∷ [])))

without_last-append : (s : Str) (c : ℕ) → without_last (s ++ (c ∷ [])) ≡ s
unfolding without_last
without_last-append s c =
    ap (λ n. take n (s ++ (c ∷ []))) (omega (arith, length-append s (c ∷ [])))
    ∙ take-append_length s (c ∷ [])

pub without_last-terminated : (ss : List Str) → without_last (terminated ss) ≡ join ss (b'&' ∷ [])
without_last-terminated [] = unfold terminated without_last join in refl
without_last-terminated (s ∷ ss) = rw (terminated-join s ss) (without_last-append _ b'&')

map_to_query-join :
    (params : Params)
    → map_to_query_param_sort params ≡ join (assignments (sort params)) (b'&' ∷ [])
unfolding map_to_query_param_sort
map_to_query-join [] = unfold sort assignments join in refl
map_to_query-join (p ∷ ps) =
    ap without_last (query_loop-terminated [] (sort (p ∷ ps)))
    ∙ without_last-terminated (assignments (sort (p ∷ ps)))

-- The text of a query is the assignments of the keys whose value is not empty, in the order of the
-- keys and with ampersands between them and nowhere else, and in whatever order Go visits a map,
-- its text is the same.
pub map_to_query_param_sort_lem :
    (params visited : Params)
    → DistinctKeys params
    → Perm params visited
    → (map_to_query_param_sort params ≡ join (assignments (sort params)) (b'&' ∷ []))
      × (map_to_query_param_sort visited ≡ map_to_query_param_sort params)
map_to_query_param_sort_lem params visited distinct perm = (
  map_to_query-join params,
  ∥∥₁_elim perm (List.is_set ℕ_set _ _) λ d.
      map_to_query-join visited
      ∙ (ap (λ ps. join (assignments ps) (b'&' ∷ [])) (sym (sort-Permᴰ params visited d distinct))
          ∙ sym (map_to_query-join params)),
)
