-- ===== src/Util/Sorted.antt =====
-- pkg/util: sorting the keys of a map, which Go visits in any order.
use mathlib.Core.List.{Permᴰ}
use mathlib.Core.Path.{subst}
use jian_yu_server_lib.Base.{◌≡◌, ◌≢◌, refl, sym, ap, ◌∙◌, true, false, [], ◌∷◌, All, arith}
use jian_yu_server_lib.Strings.{Str}
use package.jian_yu_server_lib.Util.Sign.{Value, Params, less, insert, sort}

less_irrefl : (s : Str) → less s s ≡ false
unfolding less
less_irrefl [] = refl
less_irrefl (c ∷ s) = ground (arith, less_irrefl s)

less_trans : (s t u : Str) → less s t ≡ true → less t u ≡ true → less s u ≡ true
unfolding less
less_trans s t [] h k = cc
less_trans [] t (d ∷ u) h k = refl
less_trans (b ∷ s) [] (d ∷ u) h k = cc
less_trans (b ∷ s) (c ∷ t) (d ∷ u) h k = ground (arith, less_trans s t u)

less_total : (s t : Str) → less s t ≡ false → less t s ≡ false → s ≡ t
unfolding less
less_total [] [] h k = refl
less_total [] (c ∷ t) h k = cc
less_total (b ∷ s) [] h k = cc
less_total (b ∷ s) (c ∷ t) h k = ground (arith, less_total s t)

-- Entries with different keys may be inserted in either order.
insert_comm :
    (p q : Str × Value) (ps : Params) → p.0 ≢ q.0 → insert p (insert q ps) ≡ insert q (insert p ps)
unfolding insert
insert_comm p q [] h = ground (arith, less_total p.0 q.0, less_trans p.0 q.0 p.0, less_irrefl p.0)
insert_comm p q (r ∷ ps) h = ground (
  arith,
  insert_comm p q ps h,
  less_total p.0 q.0,
  less_trans p.0 q.0 p.0,
  less_irrefl p.0,
  less_trans p.0 q.0 r.0,
  less_trans q.0 p.0 r.0,
)

-- The keys of a map differ from each other.
abbrev pub DistinctKeys : Params → Type 0
DistinctKeys [] = Unit
DistinctKeys (p ∷ ps) = All (λ q. p.0 ≢ q.0) ps × DistinctKeys ps

All-Permᴰ : (P : Str × Value → Type 0) (ps qs : Params) → Permᴰ ps qs → All P ps → All P qs
All-Permᴰ P _ _ Permᴰ.nil h = h
All-Permᴰ P _ _ (Permᴰ.cons {l₁ = ps} {l₂ = qs} e d) h = (subst P e h.0, All-Permᴰ P ps qs d h.1)
All-Permᴰ P _ _ (Permᴰ.swap e f) h = (subst P f h.1.0, (subst P e h.0, h.1.1))
All-Permᴰ P _ _ (Permᴰ.trans {l₂ = ms} d e) h = All-Permᴰ P ms _ e (All-Permᴰ P _ ms d h)

DistinctKeys-Permᴰ : (ps qs : Params) → Permᴰ ps qs → DistinctKeys ps → DistinctKeys qs
DistinctKeys-Permᴰ _ _ Permᴰ.nil h = h
DistinctKeys-Permᴰ _ _ (Permᴰ.cons {l₁ = ps} {l₂ = qs} e d) h = (
  All-Permᴰ _ ps qs d (subst (λ a. All (λ q. a.0 ≢ q.0) ps) e h.0),
  DistinctKeys-Permᴰ ps qs d h.1,
)
DistinctKeys-Permᴰ _ _ (Permᴰ.swap {l = l} e f) h = (
  (
    λ same. h.0.0 (ap (λ a. a.0) e ∙ (sym same ∙ ap (λ a. a.0) (sym f))),
    subst (λ a. All (λ q. a.0 ≢ q.0) l) f h.1.0,
  ),
  (subst (λ a. All (λ q. a.0 ≢ q.0) l) e h.0.1, h.1.1),
)
DistinctKeys-Permᴰ _ _ (Permᴰ.trans {l₂ = ms} d e) h =
    DistinctKeys-Permᴰ ms _ e (DistinctKeys-Permᴰ _ ms d h)

-- However the map is visited, the sorted list is the same.
pub sort-Permᴰ : (ps qs : Params) → Permᴰ ps qs → DistinctKeys ps → sort ps ≡ sort qs
unfolding sort
sort-Permᴰ _ _ Permᴰ.nil h = refl
sort-Permᴰ _ _ (Permᴰ.cons {a = a} {b = b} {l₁ = ps} {l₂ = qs} e d) h =
    rw (e, sort-Permᴰ ps qs d h.1) refl
sort-Permᴰ _ _ (Permᴰ.swap {a = a} {b = b} {l = l} e f) h =
    rw (sym e, sym f) (insert_comm a b (sort l) h.0.0)
sort-Permᴰ _ _ (Permᴰ.trans {l₂ = ms} d e) h =
    sort-Permᴰ _ ms d h ∙ sort-Permᴰ ms _ e (DistinctKeys-Permᴰ _ ms d h)
