-- ===== src/Redis/Clocked.antt =====
-- A server with a clock that keeps strings with their deadlines, which shows that the laws of time can
-- be kept.
use jian_yu_server_lib.Base.{
  ℕ, zero, suc, ◌+◌, ◌*◌, ◌/◌, ◌<◌, ◌≡◌, ◌≢◌, refl, ap, ◌∙◌, Bool, true, false, ◌||◌, ◌==◌, Option,
  none, some, ltb, arith, if◌then◌else◌,
}
use jian_yu_server_lib.Base.Int.{ℤ, pos, negsuc}
use jian_yu_server_lib.Strings.{Str, str_eq}
use jian_yu_server_lib.Strings.Laws.{str_eq_refl, ne→str_eq}
use package.jian_yu_server_lib.Redis.Client.{Client}
use package.jian_yu_server_lib.Redis.Memory.{string_client, reply, get_reply, get_reply_lem}
use package.jian_yu_server_lib.Redis.Timed.{Expiry, TimeLaws}

-- A value, and the time at which it ends, if it does
pub record Entry : Type 0 where
  pub text : Str
  pub deadline : Option ℕ

pub record Clocked : Type 0 where
  pub now : ℕ
  pub entries : Str → Option Entry

abbrev at_time : ℕ → Option Entry → Option Str
at_time t none = none
at_time t (some e) = elim e.deadline [
  | none ↦ some e.text
  | some end ↦ if ltb t end then some e.text else none
]

-- An expiry of 0 is none.
abbrev deadline_of : ℕ → ℕ → Option ℕ
deadline_of now zero = none
deadline_of now (suc d) = some (now + suc d)

abbrev millis : ℤ → ℕ
millis (pos ns) = ns / 1000000
millis (negsuc n) = 0

abbrev with_entry : Clocked → Str → Option Entry → Clocked
with_entry s key e = record { now = s.now; entries = λ k. if str_eq k key then e else s.entries k }

abbrev stored_entry : ℕ → Str → ℕ → Entry
stored_entry now v d = record { text = v; deadline = deadline_of now d }

abbrev pub clocked_client : Client Clocked ℕ
clocked_client =
    string_client
      (λ s key v expire. (with_entry s key (some (stored_entry s.now v (millis expire))), none))
      (λ s key. get_reply (at_time s.now (s.entries key))) (λ s key. (with_entry s key none, none))
      (λ s key v expire. (s, reply false)) (λ s script keys args. (s, reply (pos 0)))

abbrev pub lives : ℕ → ℕ → Bool
lives d n = (d == 0) || ltb n d

millis_lem : (d : ℕ) → millis (pos (d * 1000000)) ≡ d
millis_lem d = omega arith

lives_lem :
    (now n d : ℕ) (v : Str)
    → at_time (now + n) (some (stored_entry now v d)) ≡ (if lives d n then some v else none)
lives_lem now n zero v = refl
lives_lem now n (suc d) v = ground arith

set_at :
    (s : Clocked) (key v : Str) (e d n : ℕ)
    → e ≡ d
    → at_time (s.now + n) ((with_entry s key (some (stored_entry s.now v e))).entries key)
      ≡ (if lives d n then some v else none)
set_at s key v e d n same = rw (str_eq_refl key, same) (lives_lem s.now n d v)

entry_gone : (s : Clocked) (key : Str) → (with_entry s key none).entries key ≡ none
entry_gone s key = rw (str_eq_refl key) refl

entry_kept :
    (s : Clocked) (key k : Str) (e : Option Entry)
    → k ≢ key
    → (with_entry s key e).entries k ≡ s.entries k
entry_kept s key k e ne = rw (ne→str_eq k key ne) refl

now_lem : (now : ℕ) → now + 0 ≡ now
now_lem now = omega arith

later_sum : (now m n : ℕ) → now + m + n ≡ now + (m + n)
later_sum now m n = omega arith

pub lives-before : (d n : ℕ) → n < d → lives d n ≡ true
lives-before d n h = ground arith

pub lives-after : (d n : ℕ) → 0 < d → d < n → lives d n ≡ false
lives-after d n h h' = ground arith

abbrev pub clocked_expiry : Expiry
clocked_expiry = record {
  lives = lives;
  forever = λ n. refl;
  before = lives-before;
  after = lives-after;
}

unfoldable pub clocked_laws : TimeLaws clocked_client
unfolding millis_lem lives_lem set_at entry_gone entry_kept now_lem later_sum
clocked_laws = record {
  expiry = clocked_expiry;
  value_at = λ s n key. at_time (s.now + n) (s.entries key);
  later = λ m s. record { now = s.now + m; entries = s.entries };
  later_lem = λ s m n key. ap (λ t. at_time t (s.entries key)) (later_sum s.now m n);
  set_lem = λ s key v d n ok. (
    set_at s key v (millis (pos (d * 1000000))) d n (millis_lem d),
    λ k ne. ap (at_time (s.now + n)) (entry_kept s key k _ ne),
  );
  get_lem = λ s key. (
    λ h.
        ap (λ t. at_time t (s.entries key)) (now_lem s.now)
        ∙ (get_reply_lem (at_time s.now (s.entries key))).0 h,
    λ h.
        ap (λ t. at_time t (s.entries key)) (now_lem s.now)
        ∙ (get_reply_lem (at_time s.now (s.entries key))).1 h,
  );
  del_lem = λ s key n ok. (
    ap (at_time (s.now + n)) (entry_gone s key),
    λ k ne. ap (at_time (s.now + n)) (entry_kept s key k none ne),
  );
}
