-- ===== src/Redis/Hashes.antt =====
-- What Hmset sends, when Hmget panics, and what ZAdd sends.
use jian_yu_server_lib.Base.{
  ℕ, suc, ◌+◌, ◌/◌, ◌%◌, ◌≡◌, ◌↔◌, ◌⊎◌, inl, inr, refl, sym, ap, ◌∙◌, Option, none, some, List, [],
  ◌∷◌, length, replicate, if◌then◌else◌, arith, Option-cases,
}
use mathlib.Core.Path.{subst}
use jian_yu_server_lib.Base.Outcome.{Outcome, returned, panicked, ◌>>=◌}
use jian_yu_server_lib.Strings.{Str, str, str_eq}
use jian_yu_server_lib.Strings.Laws.{str_eq_iff}
use package.jian_yu_server_lib.Redis.Client.{Client, other}
use package.jian_yu_server_lib.Redis.Conn.{
  pairs_of, put_field, field_value_map, result_strings, hmset, hmget, hmget_result,
}
use package.jian_yu_server_lib.Redis.Collections.{Arg, float, text, z_of, zs_of, float_of, zadd}

-- The value of a field in a map.
unfoldable pub field_of : Str → List (Str × Str) → Option Str
field_of f [] = none
field_of f ((g, v) ∷ m) = if str_eq g f then some v else field_of f m

-- The last value that a list gives a field, or else the given one.
unfoldable pub last_value : Str → List Str → Option Str → Option Str
last_value f [] v = v
last_value f (g ∷ []) v = v
last_value f (g ∷ w ∷ rest) v = last_value f rest (if str_eq g f then some w else v)

field_of-put_field :
    (f g v : Str) (m : List (Str × Str))
    → field_of f (put_field g v m) ≡ (if str_eq g f then some v else field_of f m)
unfolding field_of put_field
field_of-put_field f g v [] = refl
field_of-put_field f g v ((h, w) ∷ m) =
    ground (arith, str_eq_iff h g, str_eq_iff g f, str_eq_iff h f, field_of-put_field f g v m)

some_injective {ℓ} : {A : Type ℓ} (a b : A) → some a ≡ some b → a ≡ b
some_injective a b h = cc

none≢some {ℓ} : {A : Type ℓ} (a : A) → ◌≡◌ {A = Option A} none (some a) → ⊥
none≢some a h = cc

bind_panics {ℓ κ} :
    {A : Type ℓ} {B : Type κ} (o : Outcome A) (f : A → B)
    → ((o >>= λ a. returned (f a)) ≡ panicked) ↔ (o ≡ panicked)
bind_panics (returned a) f = (λ h. absurd (ground arith), λ h. absurd (ground arith))
bind_panics panicked f = (λ h. refl, λ h. refl)

field_of-map :
    (f : Str) (xs : List Str) (ps m : List (Str × Str))
    → pairs_of xs ≡ some ps
    → field_of f (field_value_map ps m) ≡ last_value f xs (field_of f m)
unfolding pairs_of field_value_map last_value
field_of-map f [] ps m h =
    subst (λ ps. field_of f (field_value_map ps m) ≡ field_of f m) (some_injective [] ps h) refl
field_of-map f (g ∷ []) ps m h = cc
field_of-map f (g ∷ v ∷ xs) ps m h = elim (Option-cases (pairs_of xs)) [
  | inl e ↦ absurd (none≢some ps (rw e at h))
  | inr (qs, e) ↦
      subst (λ ps. field_of f (field_value_map ps m) ≡ last_value f (g ∷ v ∷ xs) (field_of f m))
        (some_injective ((g, v) ∷ qs) ps (rw e at h))
        (field_of-map f xs qs (put_field g v m) e
          ∙ ap (last_value f xs) (field_of-put_field f g v m))
]

parity : (n : ℕ) → (n % 2 ≡ 0) ⊎ (n % 2 ≡ 1)
parity n = omega arith

pairs_of-odd : (xs : List Str) → length xs % 2 ≡ 1 → pairs_of xs ≡ none
unfolding pairs_of
pairs_of-odd [] h = absurd (omega arith)
pairs_of-odd (f ∷ []) h = refl
pairs_of-odd (f ∷ v ∷ xs) h = rw (pairs_of-odd xs (omega arith)) refl

pairs_of-even :
    (xs : List Str) → length xs % 2 ≡ 0 → (ps : List (Str × Str)) × (pairs_of xs ≡ some ps)
unfolding pairs_of
pairs_of-even [] h = ([], refl)
pairs_of-even (f ∷ []) h = absurd (omega arith)
pairs_of-even (f ∷ v ∷ xs) h =
    let (ps, e) = pairs_of-even xs (omega arith) in ((f, v) ∷ ps, rw e refl)

-- The elements of a reply are all there.
unfoldable pub HasNil : List (Option Str) → Type 0
HasNil [] = ⊥
HasNil (none ∷ rest) = Unit
HasNil (some s ∷ rest) = HasNil rest

result_strings-HasNil :
    (results : List (Option Str)) → (result_strings results ≡ panicked) ↔ HasNil results
unfolding result_strings HasNil
result_strings-HasNil [] = (λ h. absurd (ground arith), λ h. absurd h)
result_strings-HasNil (none ∷ rest) = (λ h. tt, λ h. refl)
result_strings-HasNil (some s ∷ rest) =
    let bind = bind_panics (result_strings rest) (λ ss. s ∷ ss) in
    let ih = result_strings-HasNil rest in (λ h. ih.0 (bind.0 h), λ h. bind.1 (ih.1 h))

zs_of-repeats {ℓ} :
    {F : Type ℓ} (write : F → Str) (score : F) (member : Str) (args rest : List (Arg F))
    → zs_of write (float score ∷ text member ∷ args) rest
      ≡ returned (replicate ((length rest + 1) / 2) (record { score = score; member = member }))
unfolding zs_of z_of float_of
zs_of-repeats write score member args [] = refl
zs_of-repeats write score member args (a ∷ []) = refl
zs_of-repeats write score member args (a ∷ b ∷ rest) =
    let more : (suc (suc (length rest)) + 1) / 2 ≡ suc ((length rest + 1) / 2) = omega arith in
    rw (zs_of-repeats write score member args rest, more) refl

module _ {ℓ} {S F : Type ℓ} (client : Client S F) where
  -- Of an odd number of texts Hmset sends nothing and returns an error; of an even number it sends a
  -- map in which each field has the last value that the list gives it, and no other field.
  pub hmset_lem :
      (s : S) (key : Str) (field_values : List Str)
      → ((length field_values % 2 ≡ 1)
          × (e : Str) × (hmset client s key field_values ≡ (s, some (other e))))
        ⊎ ((length field_values % 2 ≡ 0)
            × (m : List (Str × Str)) × (hmset client s key field_values ≡ client.hmset s key m)
            × ((f : Str) → field_of f m ≡ last_value f field_values none))
  unfolding hmset field_of
  hmset_lem s key xs = elim (parity (length xs)) [
    | inr odd ↦
        inl (odd, str "redis hmset操作失败【fieldValues不能为单数！】", rw (hmset, pairs_of-odd xs odd) refl)
    | inl even ↦
        let (ps, e) = pairs_of-even xs even in
        inr (even, field_value_map ps [], rw (hmset, e) refl, λ f. field_of-map f xs ps [] e)
  ]

  -- Where redis answers with one value for each field, Hmget panics exactly when one of the fields is
  -- missing.
  pub hmget_panics_iff :
      (s : S) (key : Str) (fields : List Str) (results : List (Option Str))
      → client.hmget s key fields ≡ record { value = some results; err = none }
      → (hmget client s key fields ≡ panicked) ↔ HasNil results
  unfolding hmget hmget_result
  hmget_panics_iff s key fields results e =
      let result = ap (λ r. hmget_result r.value r.err) e in
      let bind =
        bind_panics (result_strings results) (λ ss. record { value = some ss; err = none }) in
      let nils = result_strings-HasNil results in
      (λ h. nils.0 (bind.0 (sym result ∙ h)), λ h. result ∙ bind.1 (nils.1 h))

  -- Whatever pairs follow the first one, a score and a member, ZAdd sends the first pair once for each
  -- pair of arguments, and none of the others.
  pub zadd_repeats :
      (write : F → Str) (s : S) (key : Str) (score : F) (member : Str) (args : List (Arg F))
      → zadd client write s key (float score ∷ text member ∷ args)
        ≡ returned (
            client.zadd s key
              (replicate ((length args + 3) / 2) (record { score = score; member = member })))
  unfolding zadd
  zadd_repeats write s key score member args =
      let pairs : (suc (suc (length args)) + 1) / 2 ≡ (length args + 3) / 2 = omega arith in
      rw (zs_of-repeats write score member args (float score ∷ text member ∷ args), pairs) refl
