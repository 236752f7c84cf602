-- ===== src/Wait/Laws.antt =====
-- The shards together are one map from ids to channels.
use jian_yu_server_lib.Base.{
  ℕ, suc, ◌%◌, ◌≡◌, ◌≢◌, refl, sym, ap, true, false, Option, none, some, arith, ◌==◌, if◌then◌else◌,
}
use jian_yu_server_lib.Base.Outcome.{returned, panicked}
use package.jian_yu_server_lib.Wait.{
  Chan, new_chan, Ids, Waiters, update_shard, put, register, trigger, is_some, is_registered,
  default_list_element_length,
}

pub chan_of-update :
    (e : ℕ → Ids) (id : ℕ) (v : Option ℕ) (id' : ℕ)
    → update_shard e (id % default_list_element_length) id v (id' % default_list_element_length) id'
      ≡ (if id' == id then v else e (id' % default_list_element_length) id')
chan_of-update e id v id' = ground arith

updated :
    (e : ℕ → Ids) (id : ℕ) (v : Option ℕ)
    → update_shard e (id % default_list_element_length) id v (id % default_list_element_length) id
      ≡ v
updated e id v = ground (arith, chan_of-update e id v id)

kept :
    (e : ℕ → Ids) (id : ℕ) (v : Option ℕ) (id' : ℕ)
    → id' ≢ id
    → update_shard e (id % default_list_element_length) id v (id' % default_list_element_length) id'
      ≡ e (id' % default_list_element_length) id'
kept e id v id' ne = ground (arith, ne, chan_of-update e id v id')

module _ {ℓ} {X : Type ℓ} where
  put_lem : (chans : ℕ → Chan X) (ch : ℕ) (c : Chan X) → put chans ch c ch ≡ c
  put_lem chans ch c = ground arith

  -- The channel of an id.
  abbrev pub chan_of : Waiters X → ℕ → Option ℕ
  chan_of w id = w.e (id % default_list_element_length) id

  put_elsewhere :
      (chans : ℕ → Chan X) (ch : ℕ) (c : Chan X) (ch' : ℕ)
      → ch' ≢ ch
      → put chans ch c ch' ≡ chans ch'
  put_elsewhere chans ch c ch' ne = ground (arith, ne)

  trigger-elsewhere :
      (w : Waiters X) (id : ℕ) (x : X) (o : Option ℕ) (ch' : ℕ)
      → chan_of w id ≡ o
      → o ≢ some ch'
      → (trigger w id x).chans ch' ≡ w.chans ch'
  trigger-elsewhere w id x none ch' e ne = rw (trigger, e) refl
  trigger-elsewhere w id x (some ch) ch' e ne =
      rw (trigger, e) (put_elsewhere w.chans ch _ ch' (λ same. ne (ap some (sym same))))

  trigger_unregistered :
      (w : Waiters X) (id : ℕ) (x : X) (ch : ℕ)
      → chan_of w id ≡ none
      → (trigger w id x).chans ch ≡ w.chans ch
  trigger_unregistered w id x ch e = rw (trigger, e) refl

  -- Registering an id that is not registered gives it a channel of its own, with nothing in it, and
  -- changes no other id; registering one that is registered panics.
  pub register_lem :
      (w : Waiters X) (id : ℕ)
      → (chan_of w id ≡ none
          → (w' : Waiters X) × (register w id ≡ returned (w', w.next))
            × (chan_of w' id ≡ some w.next)
            × (w'.chans w.next ≡ new_chan)
            × ((id' : ℕ) → id' ≢ id → chan_of w' id' ≡ chan_of w id'))
        × ((ch : ℕ) → chan_of w id ≡ some ch → register w id ≡ panicked)
  register_lem w id = (
    λ e. (
      record {
        e = update_shard w.e (id % default_list_element_length) id (some w.next);
        chans = put w.chans w.next new_chan;
        next = suc w.next;
      },
      rw (register, e) refl,
      updated w.e id (some w.next),
      put_lem w.chans w.next new_chan,
      λ id' ne. kept w.e id (some w.next) id' ne,
    ),
    λ ch e. rw (register, e) refl,
  )

  -- Triggering an id puts the value into its channel and closes it, and the id is not registered
  -- any more; every channel that is not the one of the id is as it was; a second trigger changes
  -- nothing for any channel; and every other id has the channel that it had.
  pub trigger_lem :
      (w : Waiters X) (id : ℕ) (x y : X)
      → ((ch : ℕ)
          → chan_of w id ≡ some ch
          → (trigger w id x).chans ch ≡ record { value = some x; closed = true })
        × (is_registered (trigger w id x) id ≡ false)
        × ((ch : ℕ) → chan_of w id ≢ some ch → (trigger w id x).chans ch ≡ w.chans ch)
        × ((ch : ℕ) → (trigger (trigger w id x) id y).chans ch ≡ (trigger w id x).chans ch)
        × ((id' : ℕ) → id' ≢ id → chan_of (trigger w id x) id' ≡ chan_of w id')
  trigger_lem w id x y = (
    λ ch e. rw e (put_lem w.chans ch _),
    ap is_some (updated w.e id none),
    λ ch ne. trigger-elsewhere w id x (chan_of w id) ch refl ne,
    λ ch. trigger_unregistered (trigger w id x) id y ch (updated w.e id none),
    λ id' ne. kept w.e id none id' ne,
  )
