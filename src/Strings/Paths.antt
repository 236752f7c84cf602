-- ===== src/Strings/Paths.antt =====
-- filepath.Join and filepath.Clean on Unix.
use jian_yu_server_lib.Base.{◌≡◌, refl, Bool, ◌||◌, List, [], ◌∷◌, ◌++◌, if◌then◌else◌}
use mathlib.Core.List.{reverse}
use package.jian_yu_server_lib.Strings.{Str, str, str_eq, has_prefix, split, join}

-- One element of a path, on the stack of those before it.
unfoldable pub push_element : Bool → List Str → Str → List Str
unfolding str_eq
push_element rooted [] e =
    if str_eq e [] || str_eq e (b'.' ∷ [])
    then []
    else if str_eq e (b'.' ∷ b'.' ∷ [])
    then (if rooted then [] else e ∷ [])
    else e ∷ []
push_element rooted (t ∷ ts) e =
    if str_eq e [] || str_eq e (b'.' ∷ [])
    then t ∷ ts
    else if str_eq e (b'.' ∷ b'.' ∷ [])
    then (if str_eq t (b'.' ∷ b'.' ∷ []) then e ∷ t ∷ ts else ts)
    else e ∷ t ∷ ts

unfoldable pub push_elements : Bool → List Str → List Str → List Str
unfolding push_element
push_elements rooted stack [] = stack
push_elements rooted stack (e ∷ es) = push_elements rooted (push_element rooted stack e) es

-- filepath.Clean
unfoldable pub clean : Str → Str
unfolding push_elements has_prefix split join
clean path =
    let rooted = has_prefix path (b'/' ∷ []) in
    let text = join (reverse (push_elements rooted [] (split path b'/' []))) (b'/' ∷ []) in
    if rooted then b'/' ∷ text else if str_eq text [] then b'.' ∷ [] else text

-- filepath.Join of two elements.
unfoldable pub join_path : Str → Str → Str
unfolding clean
join_path [] [] = []
join_path [] (c ∷ b) = clean (c ∷ b)
join_path (c ∷ a) b = clean ((c ∷ a) ++ (b'/' ∷ b))

join_path_runs :
    (join_path (str "jydata") (str "logs") ≡ str "jydata/logs")
    × (join_path (str "/a/./b/") (str "../../../c//d") ≡ str "/c/d")
    × (join_path (str "a") (str "../..") ≡ str "..")
    × (join_path (str "a/") (str "..") ≡ str ".")
unfolding join_path str
join_path_runs = (refl, refl, refl, refl)
