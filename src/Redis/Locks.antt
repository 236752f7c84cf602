-- ===== src/Redis/Locks.antt =====
-- Locks by keys: SetNX with CompareAndDelete, and Lock with UnLock.
use jian_yu_server_lib.Base.{
  ◌≡◌, ◌≢◌, ◌⊎◌, inl, inr, refl, ap, ◌∙◌, Bool, true, false, ◌&&◌, Option, none, some, [], ◌∷◌,
  if◌then◌else◌, arith, Bool-cases,
}
use jian_yu_server_lib.Base.Int.{ℤ}
use jian_yu_server_lib.Strings.{Str, str_eq}
use jian_yu_server_lib.Strings.Laws.{str_eq_iff}
use package.jian_yu_server_lib.Redis.Client.{Client, RedisErr}
use package.jian_yu_server_lib.Redis.Conn.{
  lock, unlock, unlock_found, compare_and_delete, deleted_reply, compare_and_delete_script, is_one,
}
use package.jian_yu_server_lib.Redis.Keys.{KeyLaws, SameElsewhere, holds, at_or_elsewhere}

deleted_reply-ok :
    (n : ℤ) (err : Option RedisErr)
    → (deleted_reply n err).err ≡ none
    → (err ≡ none) × ((deleted_reply n err).value ≡ is_one n)
unfolding deleted_reply
deleted_reply-ok n (some e) h = cc
deleted_reply-ok n none h = (refl, refl)

some_injective : (w v : Str) → some w ≡ some v → w ≡ v
some_injective w v h = cc

holds-true : (o : Option Str) (v : Str) → holds o v ≡ true → o ≡ some v
holds-true none v h = cc
holds-true (some w) v h = ap some ((str_eq_iff w v).0 h)

holds-false : (o : Option Str) (v : Str) → holds o v ≡ false → o ≢ some v
holds-false none v h e = cc
holds-false (some w) v h e = ground (arith, str_eq_iff w v, some_injective w v e)

if_and_true {ℓ} :
    {A : Type ℓ} (b : Bool) (x y : A) → (if b then x else y) ≡ (if b && true then x else y)
if_and_true true x y = refl
if_and_true false x y = refl

if_and_false {ℓ} : {A : Type ℓ} (b : Bool) (x y : A) → y ≡ (if b && false then x else y)
if_and_false true x y = refl
if_and_false false x y = refl

module _ {ℓ} {S F : Type ℓ} (client : Client S F) (laws : KeyLaws client) where
  -- Lock reports no error for a key that another one has taken, and leaves the key with it: the
  -- caller of Lock is not told whether it has the key.
  pub lock_held :
      (s : S) (key v w : Str) (duration : ℤ)
      → laws.value s key ≡ some w
      → (client.set_nx s key v duration).1.err ≡ none
      → ((lock client s key v duration).1 ≡ none)
        × (laws.value (lock client s key v duration).0 key ≡ some w)
  unfolding lock
  lock_held s key v w duration held ok =
      (ok, (laws.set_nx-held s key v w duration ok held).1 key ∙ held)

  unlock_found_any :
      (s : S) (key val : Str) (err : Option RedisErr)
      → (err ≡ none → laws.value s key ≡ some val)
      → (unlock_found client s key val err).1 ≡ none
      → ((laws.value (unlock_found client s key val err).0 key ≡ none)
          ⊎ (laws.value (unlock_found client s key val err).0 key ≡ some []))
        × SameElsewhere laws.value key s (unlock_found client s key val err).0
  unfolding unlock_found
  unlock_found_any s key val (some e) found ok = cc
  unlock_found_any s key val none found ok = elim (Bool-cases (str_eq val [])) [
    | inl empty ↦ rw empty (inr (found refl ∙ ap some ((str_eq_iff val []).0 empty)), λ k ne. refl)
    | inr held ↦
        let ok' : (client.del s key).1 ≡ none = rw held at ok in
        rw held (inl (laws.del_lem s key ok').0, (laws.del_lem s key ok').1)
  ]

  -- Where it reports no error, UnLock leaves the key free or with the empty value, whoever had
  -- taken it, and no other key is touched.
  pub unlock_any :
      (s : S) (key : Str)
      → (unlock client s key).1 ≡ none
      → ((laws.value (unlock client s key).0 key ≡ none)
          ⊎ (laws.value (unlock client s key).0 key ≡ some []))
        × SameElsewhere laws.value key s (unlock client s key).0
  unfolding unlock
  unlock_any s key ok =
      unlock_found_any s key (client.get s key).value (client.get s key).err (laws.get_lem s key).0
        ok

  -- Where it reports no error, CompareAndDelete says whether the key had the expected value, frees it
  -- exactly then, and leaves every other key as it was.
  pub compare_and_delete_lem :
      (s : S) (key v : Str)
      → (compare_and_delete client s key v).1.err ≡ none
      → ((compare_and_delete client s key v).1.value ≡ holds (laws.value s key) v)
        × ((k : Str)
            → laws.value (compare_and_delete client s key v).0 k
              ≡ (if str_eq k key && holds (laws.value s key) v then none else laws.value s k))
  unfolding compare_and_delete
  compare_and_delete_lem s key v ok =
      let done =
        deleted_reply-ok (client.eval s compare_and_delete_script (key ∷ []) (v ∷ [])).1.value _
          ok in
      elim (Bool-cases (holds (laws.value s key) v)) [
        | inl same ↦
            let (one, gone, kept) =
              laws.eval-same s key v done.0 (holds-true (laws.value s key) v same) in
            rw same (
              done.1 ∙ ap is_one one,
              λ k.
                  at_or_elsewhere laws.value s _ key k none gone kept
                  ∙ if_and_true (str_eq k key) _ _,
            )
        | inr differs ↦
            let (zero, kept) =
              laws.eval-different s key v done.0 (holds-false (laws.value s key) v differs) in
            rw differs (done.1 ∙ ap is_one zero, λ k. kept k ∙ if_and_false (str_eq k key) _ _)
      ]
