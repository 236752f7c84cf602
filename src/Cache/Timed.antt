-- ===== src/Cache/Timed.antt =====
-- Calls of a cache with time between them. Times are in milliseconds.
use jian_yu_server_lib.Base.{
  ℕ, ◌+◌, ◌*◌, ◌≡◌, refl, ap, ◌∙◌, Bool, Option, none, some, inl, inr, Bool-cases, List, [], ◌∷◌,
  if◌then◌else◌, arith,
}
use jian_yu_server_lib.Base.Int.{pos}
use jian_yu_server_lib.Strings.{Str, str_eq}
use jian_yu_server_lib.Redis.Client.{RedisErr}
use package.jian_yu_server_lib.Cache.{Cache}
use package.jian_yu_server_lib.Cache.Laws.{text_of}

-- `value_at c n key` is what the cache will hold at the key `n` later if no call comes, `later n c` is
-- the cache then, and `lives d n` says whether a value that was stored with the expiry `d` is there
-- `n` later. Each law on a call is about one that has no error.
pub record TimedLaws {ℓ} {C : Type ℓ} (cache : Cache C) : Type ℓ where
  pub lives : ℕ → ℕ → Bool
  pub value_at : C → ℕ → Str → Option Str
  pub later : ℕ → C → C
  pub later_lem :
      (c : C) (m n : ℕ) (key : Str) → value_at (later m c) n key ≡ value_at c (m + n) key
  pub set_lem :
      (c : C) (key v : Str) (n : ℕ) (k : Str)
      → (cache.set c key v).1 ≡ none
      → value_at (cache.set c key v).0 n k ≡ (if str_eq k key then some v else value_at c n k)
  pub set_and_expire_lem :
      (c : C) (key v : Str) (d n : ℕ) (k : Str)
      → (cache.set_and_expire c key v (pos (d * 1000000))).1 ≡ none
      → value_at (cache.set_and_expire c key v (pos (d * 1000000))).0 n k
        ≡ (if str_eq k key then (if lives d n then some v else none) else value_at c n k)
  pub delete_lem :
      (c : C) (key : Str) (n : ℕ) (k : Str)
      → (cache.delete c key).1 ≡ none
      → value_at (cache.delete c key).0 n k ≡ (if str_eq k key then none else value_at c n k)
  pub get_lem :
      (c : C) (key : Str)
      → (cache.get c key).err ≡ none
      → (cache.get c key).value ≡ text_of (value_at c 0 key)

-- What happens to a cache: a call that changes it, or time that passes.
pub data Op : Type 0 where
  set_op : Str → Str → Op
  delete_op : Str → Op
  set_and_expire_op : Str → Str → ℕ → Op
  wait_op : ℕ → Op

-- What a call writes to a key: nothing is there any more, or a value for good or for a time.
pub data Write : Type 0 where
  removed : Write
  lasting : Str → Write
  expiring : Str → ℕ → Write

abbrev if_same : Str → Str → Write → Option Write
if_same k key w = if str_eq k key then some w else none

abbrev pub write_of : Str → Op → Option Write
write_of k (set_op key v) = if_same k key (lasting v)
write_of k (delete_op key) = if_same k key removed
write_of k (set_and_expire_op key v d) = if_same k key (expiring v d)
write_of k (wait_op n) = none

abbrev time_of : Op → ℕ
time_of (set_op key v) = 0
time_of (delete_op key) = 0
time_of (set_and_expire_op key v d) = 0
time_of (wait_op n) = n

-- The time that passes in all
unfoldable pub elapsed : List Op → ℕ
elapsed [] = 0
elapsed (op ∷ ops) = time_of op + elapsed ops

abbrev or_first : Option (Write × ℕ) → Option Write → ℕ → Option (Write × ℕ)
or_first (some x) w t = some x
or_first none none t = none
or_first none (some w) t = some (w, t)

-- The last write to a key, and the time that has passed since
unfoldable pub last_write : Str → List Op → Option (Write × ℕ)
unfolding elapsed
last_write key [] = none
last_write key (op ∷ ops) = or_first (last_write key ops) (write_of key op) (elapsed ops)

-- What is left of a write after a time
abbrev pub left : (ℕ → ℕ → Bool) → Write → ℕ → Option Str
left lives removed n = none
left lives (lasting v) n = some v
left lives (expiring v d) n = if lives d n then some v else none

-- What a key holds by its last write, and by what it would have held without any
abbrev pub remains : (ℕ → ℕ → Bool) → (ℕ → Option Str) → ℕ → Option (Write × ℕ) → Option Str
remains lives unwritten t none = unwritten t
remains lives unwritten t (some (w, since)) = left lives w since

zero_sum : (n : ℕ) → 0 + n ≡ n
zero_sum n = omega arith

module _ {ℓ} {C : Type ℓ} (cache : Cache C) (laws : TimedLaws cache) where
  abbrev pub apply_op : C → Op → C × Option RedisErr
  apply_op c (set_op key v) = cache.set c key v
  apply_op c (delete_op key) = cache.delete c key
  apply_op c (set_and_expire_op key v d) = cache.set_and_expire c key v (pos (d * 1000000))
  apply_op c (wait_op n) = (laws.later n c, none)

  -- No call has an error.
  unfoldable pub AllOk : C → List Op → Type 0
  AllOk c [] = Unit
  AllOk c (op ∷ ops) = ((apply_op c op).1 ≡ none) × AllOk (apply_op c op).0 ops

  unfoldable pub apply_all : C → List Op → C
  apply_all c [] = c
  apply_all c (op ∷ ops) = apply_all (apply_op c op).0 ops

  -- What a key holds a time after one operation.
  abbrev after_op : C → Str → Op → ℕ → Option Write → Option Str
  after_op c k op n none = laws.value_at c (time_of op + n) k
  after_op c k op n (some w) = left laws.lives w n

  after_same :
      (c : C) (k key : Str) (op : Op) (w : Write) (n : ℕ)
      → time_of op ≡ 0
      → (if str_eq k key then left laws.lives w n else laws.value_at c n k)
        ≡ after_op c k op n (if_same k key w)
  after_same c k key op w n e = elim (Bool-cases (str_eq k key)) [
    | inl same ↦ rw same refl
    | inr other ↦ rw (other, e, zero_sum n) refl
  ]

  value_at-apply_op :
      (c : C) (op : Op) (n : ℕ) (k : Str)
      → (apply_op c op).1 ≡ none
      → laws.value_at (apply_op c op).0 n k ≡ after_op c k op n (write_of k op)
  value_at-apply_op c (set_op key v) n k ok =
      laws.set_lem c key v n k ok ∙ after_same c k key (set_op key v) (lasting v) n refl
  value_at-apply_op c (delete_op key) n k ok =
      laws.delete_lem c key n k ok ∙ after_same c k key (delete_op key) removed n refl
  value_at-apply_op c (set_and_expire_op key v d) n k ok =
      laws.set_and_expire_lem c key v d n k ok
      ∙ after_same c k key (set_and_expire_op key v d) (expiring v d) n refl
  value_at-apply_op c (wait_op m) n k ok = laws.later_lem c m n k

  -- The first operation counts where no later one writes.
  remains-or_first :
      (c : C) (k : Str) (op : Op) (w : Option Write) (t : ℕ) (o : Option (Write × ℕ))
      (now : ℕ → Option Str)
      → now t ≡ after_op c k op t w
      → remains laws.lives now t o
        ≡ remains laws.lives (λ m. laws.value_at c m k) (time_of op + t) (or_first o w t)
  remains-or_first c k op w t (some (x, since)) now e = refl
  remains-or_first c k op none t none now e = e
  remains-or_first c k op (some w) t none now e = e

  pub value_at-apply_all :
      (ops : List Op) (c : C) (k : Str)
      → AllOk c ops
      → laws.value_at (apply_all c ops) 0 k
        ≡ remains laws.lives (λ m. laws.value_at c m k) (elapsed ops) (last_write k ops)
  unfolding AllOk apply_all elapsed last_write
  value_at-apply_all [] c k ok = refl
  value_at-apply_all (op ∷ ops) c k ok =
      value_at-apply_all ops (apply_op c op).0 k ok.1
      ∙ remains-or_first c k op (write_of k op) (elapsed ops) (last_write k ops)
          (λ m. laws.value_at (apply_op c op).0 m k) (value_at-apply_op c op (elapsed ops) k ok.0)

  -- After any calls without an error, with any time between them, a read without an error gives what is
  -- left of the last write to the key, or of what was there before.
  pub get-apply_all :
      (ops : List Op) (c : C) (key : Str)
      → AllOk c ops
      → (cache.get (apply_all c ops) key).err ≡ none
      → (cache.get (apply_all c ops) key).value
        ≡ text_of
            (remains laws.lives (λ m. laws.value_at c m key) (elapsed ops) (last_write key ops))
  get-apply_all ops c key ok read =
      laws.get_lem (apply_all c ops) key read ∙ ap text_of (value_at-apply_all ops c key ok)
