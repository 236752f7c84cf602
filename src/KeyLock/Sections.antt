-- ===== src/KeyLock/Sections.antt =====
-- Each section of Lock, of Unlock and of Clean keeps the invariant.
use jian_yu_server_lib.Base.{
  ℕ, suc, ◌+◌, ◌^◌, ◌≤◌, ◌<◌, ◌≡◌, true, false, none, some, arith, length, get_elem?,
}
use jian_yu_server_lib.Strings.{Str}
use jian_yu_server_lib.Strings.Laws.{str_eq_iff}
use package.jian_yu_server_lib.KeyLock.{
  KeyLock, new_inner_lock, add, done, put, write, insert, clean,
}
use package.jian_yu_server_lib.KeyLock.Threads.{
  Pc, idle, missed, waiting, critical, releasing, World, set,
}
use package.jian_yu_server_lib.KeyLock.Tally.{tally-set, tally_ge, tally_le_length, length-set}
use package.jian_yu_server_lib.KeyLock.Invariant.{user, holder, Mapped, IsValid, moved, user_le}

-- A count is below the number of threads while there is a thread that it does not count.
count_lt :
    (w : World) (i : ℕ) (pc : Pc) (k : Str) (o : ℕ)
    → length w.threads < 2 ^ 64
    → IsValid w
    → get_elem? w.threads i ≡ some pc
    → user o pc ≡ 0
    → (w.lock.objs o).count + 1 < 2 ^ 64
count_lt w i pc k o few v at zero_user = ground (
  arith,
  v.counted o,
  tally-set (user o) w.threads i pc (waiting k o) at,
  tally_le_length (user o) (user_le o) (set w.threads i (waiting k o)),
  length-set w.threads i (waiting k o),
)

-- Lock finds the inner lock.
pub find-IsValid :
    (w : World) (i : ℕ) (pc : Pc) (k : Str) (o : ℕ)
    → length w.threads < 2 ^ 64
    → IsValid w
    → get_elem? w.threads i ≡ some pc
    → ((x : ℕ) → user x pc ≡ 0)
    → ((x : ℕ) → holder x pc ≡ 0)
    → w.lock.locks k ≡ some o
    → IsValid (record {
      lock = write w.lock o (add (w.lock.objs o));
      threads = set w.threads i (waiting k o);
    })
find-IsValid w i pc k o few v at no_user no_holder m =
    moved w i pc (waiting k o) (write w.lock o (add (w.lock.objs o))) v at
      (λ x. ground (arith, no_user x, count_lt w i pc k o few v at (no_user o)))
      (λ x. ground (arith, no_holder x)) (λ k' o' h. h) m v.made
      (λ x h. ground (arith, v.made k o m, v.unmade x h))

-- Lock makes the inner lock.
pub make-IsValid :
    (w : World) (i : ℕ) (pc : Pc) (k : Str)
    → IsValid w
    → get_elem? w.threads i ≡ some pc
    → ((x : ℕ) → user x pc ≡ 0)
    → ((x : ℕ) → holder x pc ≡ 0)
    → w.lock.locks k ≡ none
    → IsValid (record {
      lock = record {
        locks = insert w.lock.locks k w.lock.next;
        objs = put w.lock.objs w.lock.next (add new_inner_lock);
        next = suc w.lock.next;
      };
      threads = set w.threads i (waiting k w.lock.next);
    })
make-IsValid w i pc k v at no_user no_holder m =
    moved w i pc (waiting k w.lock.next) _ v at
      (λ x. ground (arith, no_user x, v.unmade w.lock.next (omega arith)))
      (λ x. ground (arith, no_holder x, v.unmade w.lock.next (omega arith)))
      (λ k' o' h. ground (arith, str_eq_iff k' k)) ground (arith, str_eq_iff k k)
      (λ k' o' h. ground (arith, v.made k' o')) (λ x h. ground (arith, v.unmade x (omega arith)))

pub acquire-IsValid :
    (w : World) (i : ℕ) (k : Str) (o : ℕ)
    → IsValid w
    → get_elem? w.threads i ≡ some (waiting k o)
    → (w.lock.objs o).locked ≡ false
    → IsValid (record {
      lock = write w.lock o (record { count = (w.lock.objs o).count; locked = true });
      threads = set w.threads i (critical k o);
    })
acquire-IsValid w i k o v at free =
    moved w i (waiting k o) (critical k o) _ v at (λ x. ground arith) (λ x. ground arith)
      (λ k' o' h. h) (v.mapped i _ at) v.made
      (λ x h. ground (arith, v.made k o (v.mapped i _ at), v.unmade x h))

pub done-IsValid :
    (w : World) (i : ℕ) (k : Str) (o : ℕ)
    → length w.threads < 2 ^ 64
    → IsValid w
    → get_elem? w.threads i ≡ some (critical k o)
    → IsValid (record {
      lock = write w.lock o (done (w.lock.objs o));
      threads = set w.threads i (releasing o);
    })
done-IsValid w i k o few v at =
    moved w i (critical k o) (releasing o) _ v at
      (λ x. ground (
        arith,
        v.counted o,
        tally_ge (user o) w.threads i _ at,
        tally_le_length (user o) (user_le o) w.threads,
      ))
      (λ x. ground arith) (λ k' o' h. h) tt v.made
      (λ x h. ground (arith, v.made k o (v.mapped i _ at), v.unmade x h))

pub held_of_releasing :
    (w : World) (i o : ℕ)
    → IsValid w
    → get_elem? w.threads i ≡ some (releasing o)
    → (w.lock.objs o).locked ≡ true
held_of_releasing w i o v at = ground (arith, v.held o, tally_ge (holder o) w.threads i _ at)

pub release-IsValid :
    (w : World) (i o : ℕ)
    → IsValid w
    → get_elem? w.threads i ≡ some (releasing o)
    → IsValid (record {
      lock = write w.lock o (record { count = (w.lock.objs o).count; locked = false });
      threads = set w.threads i idle;
    })
release-IsValid w i o v at =
    moved w i (releasing o) idle _ v at (λ x. ground arith)
      (λ x. ground (arith, held_of_releasing w i o v at)) (λ k' o' h. h) tt v.made
      (λ x h. ground (arith, held_of_releasing w i o v at, v.unmade x h))

clean-kept :
    (l : KeyLock) (k : Str) (o : ℕ)
    → 1 ≤ (l.objs o).count
    → l.locks k ≡ some o
    → (clean l).locks k ≡ some o
clean-kept l k o used m = ground arith

made_of_clean : (l : KeyLock) (k : Str) (o : ℕ) → (clean l).locks k ≡ some o → l.locks k ≡ some o
made_of_clean l k o h = ground arith

-- What the cleaner removes is used by no thread.
clean-Mapped :
    (w : World) (i : ℕ) (pc : Pc)
    → IsValid w
    → get_elem? w.threads i ≡ some pc
    → Mapped (clean w.lock) pc
clean-Mapped w i idle v at = tt
clean-Mapped w i (missed k) v at = tt
clean-Mapped w i (waiting k o) v at =
    clean-kept w.lock k o (ground (arith, v.counted o, tally_ge (user o) w.threads i _ at))
      (v.mapped i _ at)
clean-Mapped w i (critical k o) v at =
    clean-kept w.lock k o (ground (arith, v.counted o, tally_ge (user o) w.threads i _ at))
      (v.mapped i _ at)
clean-Mapped w i (releasing o) v at = tt

pub clean-IsValid :
    (w : World) → IsValid w → IsValid (record { lock = clean w.lock; threads = w.threads })
clean-IsValid w v = record {
  counted = v.counted;
  held = v.held;
  mapped = λ i pc h. clean-Mapped w i pc v h;
  made = λ k o h. v.made k o (made_of_clean w.lock k o h);
  unmade = v.unmade;
}
