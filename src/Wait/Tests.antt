-- ===== src/Wait/Tests.antt =====
-- Two waiters in one shard.
use jian_yu_server_lib.Base.{ℕ, ◌≡◌, ◌≢◌, true, false, none, some, refl}
use package.jian_yu_server_lib.Wait.{Waiters, new_chan, update_shard, trigger, is_registered}
use package.jian_yu_server_lib.Wait.Laws.{chan_of, trigger_lem}

-- 3 and 67 have the same shard.
abbrev two : Waiters ℕ
two = record {
  e = update_shard (update_shard (λ idx id. none) 3 3 (some 0)) 3 67 (some 1);
  chans = λ ch. new_chan;
  next = 2;
}

two_registered : (is_registered two 3 ≡ true) × (is_registered (trigger two 67 9) 3 ≡ true)
two_registered = (refl, refl)

trigger_lem_example :
    ((ch : ℕ)
      → chan_of two 67 ≡ some ch
      → (trigger two 67 9).chans ch ≡ record { value = some 9; closed = true })
    × (is_registered (trigger two 67 9) 67 ≡ false)
    × ((ch : ℕ) → chan_of two 67 ≢ some ch → (trigger two 67 9).chans ch ≡ two.chans ch)
    × ((ch : ℕ) → (trigger (trigger two 67 9) 67 8).chans ch ≡ (trigger two 67 9).chans ch)
    × ((id' : ℕ) → id' ≢ 67 → chan_of (trigger two 67 9) id' ≡ chan_of two id')
trigger_lem_example = trigger_lem two 67 9 8
