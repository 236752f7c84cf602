-- ===== src/Wait.antt =====
-- pkg/wait/wait.go: callers register an id and receive from a channel what is triggered for it. Each
-- function runs under the lock of the one shard that it uses, and shards share nothing, so a run is
-- a sequence of them.
pub mod Laws
mod Tests
use jian_yu_server_lib.Base.{
  ℕ, suc, ◌+◌, ◌%◌, Bool, true, false, Option, none, some, ◌==◌, if◌then◌else◌,
}
use jian_yu_server_lib.Base.Outcome.{Outcome, returned, panicked}

-- A channel with one place.
pub record Chan {ℓ} (X : Type ℓ) : Type ℓ where
  pub value : Option X
  pub closed : Bool

abbrev pub new_chan {ℓ} : {X : Type ℓ} → Chan X
new_chan = record { value = none; closed = false }

abbrev pub Ids : Type 0
Ids = ℕ → Option ℕ

-- The maps of the 64 shards, from ids to channels, and the memory that holds the channels.
pub record Waiters {ℓ} (X : Type ℓ) : Type ℓ where
  pub e : ℕ → Ids
  pub chans : ℕ → Chan X
  pub next : ℕ

-- defaultListElementLength
abbrev pub default_list_element_length : ℕ
default_list_element_length = 64

abbrev pub update : Ids → ℕ → Option ℕ → Ids
update m id v x = if x == id then v else m x

abbrev pub update_shard : (ℕ → Ids) → ℕ → ℕ → Option ℕ → ℕ → Ids
update_shard e idx id v i = if i == idx then update (e i) id v else e i

abbrev pub is_some : Option ℕ → Bool
is_some none = false
is_some (some ch) = true

module _ {ℓ} {X : Type ℓ} where
  -- New
  abbrev pub new : Waiters X
  new = record { e = λ idx id. none; chans = λ ch. new_chan; next = 0 }

  abbrev pub put : (ℕ → Chan X) → ℕ → Chan X → ℕ → Chan X
  put chans ch c x = if x == ch then c else chans x

  -- Register: the new channel, or a panic for an id that is registered.
  abbrev pub register : Waiters X → ℕ → Outcome (Waiters X × ℕ)
  register w id =
      let idx = id % default_list_element_length in
      elim (w.e idx id) [
        | none ↦ returned (
          record {
            e = update_shard w.e idx id (some w.next);
            chans = put w.chans w.next new_chan;
            next = suc w.next;
          },
          w.next,
        )
        | some ch ↦ panicked
      ]

  -- Trigger. A channel in a map is new, so the send finds its place free.
  abbrev pub trigger : Waiters X → ℕ → X → Waiters X
  trigger w id x =
      let idx = id % default_list_element_length in
      record {
        e = update_shard w.e idx id none;
        chans = elim (w.e idx id) [
          | none ↦ w.chans
          | some ch ↦ put w.chans ch (record { value = some x; closed = true })
        ];
        next = w.next;
      }

  -- IsRegistered
  abbrev pub is_registered : Waiters X → ℕ → Bool
  is_registered w id = is_some (w.e (id % default_list_element_length) id)
