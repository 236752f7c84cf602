-- ===== src/Redis/Keys.antt =====
-- What redis documents of the commands on keys that hold strings: where a command has no error, the
-- key has the value that the command gives it, and the other keys are as they were. Expiry is left to
-- the server: a law is about the moment after its command.
use jian_yu_server_lib.Base.{
  ap, ◌∙◌, inl, inr, arith, Bool-cases, if◌then◌else◌, ◌≡◌, ◌≢◌, Bool, true, false, Option, none,
  some, [], ◌∷◌,
}
use jian_yu_server_lib.Base.Int.{ℤ, pos}
use jian_yu_server_lib.Strings.{Str, str_eq}
use jian_yu_server_lib.Strings.Laws.{str_eq_iff}
use package.jian_yu_server_lib.Redis.Client.{Client, redis_nil}
use package.jian_yu_server_lib.Redis.Conn.{compare_and_delete_script}

-- `t` is `s` but for one key.
abbrev pub SameElsewhere {ℓ} : {S : Type ℓ} → (S → Str → Option Str) → Str → S → S → Type 0
SameElsewhere value key s t = (k : Str) → k ≢ key → value t k ≡ value s k

-- What holds at the key and what holds elsewhere, as one equation.
pub at_or_elsewhere {ℓ} :
    {S : Type ℓ} (value : S → Str → Option Str) (s t : S) (key k : Str) (v : Option Str)
    → value t key ≡ v
    → SameElsewhere value key s t
    → value t k ≡ (if str_eq k key then v else value s k)
at_or_elsewhere value s t key k v here elsewhere = elim (Bool-cases (str_eq k key)) [
  | inl e ↦ rw e (ap (value t) ((str_eq_iff k key).0 e) ∙ here)
  | inr e ↦ rw e (elsewhere k (λ same. ground (arith, str_eq_iff k key)))
]

-- A key has a value.
abbrev pub holds : Option Str → Str → Bool
holds none v = false
holds (some w) v = str_eq w v

pub record KeyLaws {ℓ} {S F : Type ℓ} (client : Client S F) : Type ℓ where
  pub value : S → Str → Option Str
  pub set_lem :
      (s : S) (key v : Str) (expire : ℤ)
      → (client.set s key v expire).1 ≡ none
      → (value (client.set s key v expire).0 key ≡ some v)
        × SameElsewhere value key s (client.set s key v expire).0
  pub get_lem :
      (s : S) (key : Str)
      → ((client.get s key).err ≡ none → value s key ≡ some (client.get s key).value)
        × ((client.get s key).err ≡ some redis_nil → value s key ≡ none)
  pub del_lem :
      (s : S) (key : Str)
      → (client.del s key).1 ≡ none
      → (value (client.del s key).0 key ≡ none) × SameElsewhere value key s (client.del s key).0
  pub set_nx-free :
      (s : S) (key v : Str) (expire : ℤ)
      → (client.set_nx s key v expire).1.err ≡ none
      → value s key ≡ none
      → ((client.set_nx s key v expire).1.value ≡ true)
        × (value (client.set_nx s key v expire).0 key ≡ some v)
        × SameElsewhere value key s (client.set_nx s key v expire).0
  pub set_nx-held :
      (s : S) (key v w : Str) (expire : ℤ)
      → (client.set_nx s key v expire).1.err ≡ none
      → value s key ≡ some w
      → ((client.set_nx s key v expire).1.value ≡ false)
        × ((k : Str) → value (client.set_nx s key v expire).0 k ≡ value s k)
  -- The script compares and deletes in one step.
  pub eval-same :
      (s : S) (key v : Str)
      → (client.eval s compare_and_delete_script (key ∷ []) (v ∷ [])).1.err ≡ none
      → value s key ≡ some v
      → ((client.eval s compare_and_delete_script (key ∷ []) (v ∷ [])).1.value ≡ pos 1)
        × (value (client.eval s compare_and_delete_script (key ∷ []) (v ∷ [])).0 key ≡ none)
        × SameElsewhere value key s (client.eval s compare_and_delete_script (key ∷ []) (v ∷ [])).0
  pub eval-different :
      (s : S) (key v : Str)
      → (client.eval s compare_and_delete_script (key ∷ []) (v ∷ [])).1.err ≡ none
      → value s key ≢ some v
      → ((client.eval s compare_and_delete_script (key ∷ []) (v ∷ [])).1.value ≡ pos 0)
        × ((k : Str)
            → value (client.eval s compare_and_delete_script (key ∷ []) (v ∷ [])).0 k ≡ value s k)
