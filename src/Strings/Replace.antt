-- ===== src/Strings/Replace.antt =====
-- strings.ReplaceAll.
use jian_yu_server_lib.Base.{ℕ, zero, suc, ◌≡◌, refl, true, false, [], ◌∷◌, ◌++◌, length}
use package.jian_yu_server_lib.Strings.{Str, str, has_prefix}

-- Each occurrence of `d ∷ old` is replaced, found from the left and not overlapping; `k` bytes of one
-- are still to be passed.
unfoldable pub replace_from : ℕ → Str → Str → Str → ℕ → Str
unfolding has_prefix
replace_from d old new [] k = []
replace_from d old new (c ∷ s) (suc k) = replace_from d old new s k
replace_from d old new (c ∷ s) zero = elim (has_prefix (c ∷ s) (d ∷ old)) [
  | true ↦ new ++ replace_from d old new s (length old)
  | false ↦ c ∷ replace_from d old new s zero
]

-- strings.ReplaceAll(s, old, new) for the text `d ∷ old` to be replaced, which is not empty.
unfoldable pub replace_all : Str → ℕ → Str → Str → Str
unfolding replace_from
replace_all s d old new = replace_from d old new s 0

replace_runs : replace_all (str "a{{{x}}{x}") b'{' (str "{x}") (str "yy") ≡ str "a{yy}{x}"
unfolding replace_all str
replace_runs = refl
