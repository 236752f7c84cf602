-- ===== src/Redis/Timed.antt =====
-- What redis documents of the time that a key lives: SET with an expiry, GET and DEL, and what a key
-- holds while time passes in which no command comes. Times are in milliseconds.
use jian_yu_server_lib.Base.{
  ℕ, ◌+◌, ◌*◌, ◌<◌, ◌≡◌, ◌≢◌, Bool, true, false, Option, none, some, if◌then◌else◌,
}
use jian_yu_server_lib.Base.Int.{pos}
use jian_yu_server_lib.Strings.{Str}
use package.jian_yu_server_lib.Redis.Client.{Client, redis_nil}

-- A value that was stored with an expiry of `d` is there (or not) `n` later: an expiry of 0 is none,
-- and at the very moment of the expiry it may be either.
pub record Expiry : Type 0 where
  pub lives : ℕ → ℕ → Bool
  pub forever : (n : ℕ) → lives 0 n ≡ true
  pub before : (d n : ℕ) → n < d → lives d n ≡ true
  pub after : (d n : ℕ) → 0 < d → d < n → lives d n ≡ false

-- `value_at s n key` is what the key will hold `n` later, if no command comes; `later n s` is the
-- server then. The client takes an expiry in nanoseconds.
pub record TimeLaws {ℓ} {S F : Type ℓ} (client : Client S F) : Type ℓ where
  pub expiry : Expiry
  pub value_at : S → ℕ → Str → Option Str
  pub later : ℕ → S → S
  pub later_lem :
      (s : S) (m n : ℕ) (key : Str) → value_at (later m s) n key ≡ value_at s (m + n) key
  pub set_lem :
      (s : S) (key v : Str) (d n : ℕ)
      → (client.set s key v (pos (d * 1000000))).1 ≡ none
      → (value_at (client.set s key v (pos (d * 1000000))).0 n key
          ≡ (if expiry.lives d n then some v else none))
        × ((k : Str)
            → k ≢ key
            → value_at (client.set s key v (pos (d * 1000000))).0 n k ≡ value_at s n k)
  pub get_lem :
      (s : S) (key : Str)
      → ((client.get s key).err ≡ none → value_at s 0 key ≡ some (client.get s key).value)
        × ((client.get s key).err ≡ some redis_nil → value_at s 0 key ≡ none)
  pub del_lem :
      (s : S) (key : Str) (n : ℕ)
      → (client.del s key).1 ≡ none
      → (value_at (client.del s key).0 n key ≡ none)
        × ((k : Str) → k ≢ key → value_at (client.del s key).0 n k ≡ value_at s n k)
