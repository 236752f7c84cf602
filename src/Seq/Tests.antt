-- ===== src/Seq/Tests.antt =====
-- Runs of the generator, and the theorems about it on a small history.
use jian_yu_server_lib.Base.{◌≡◌, refl, none, some, List, [], ◌∷◌, arith}
use jian_yu_server_lib.Seq.{Store, Replies, success, lost, done, gen_seq}
use jian_yu_server_lib.Seq.Ordered.{
  Event, call, restart, Increasing, last, issued, issued-Increasing,
}
use jian_yu_server_lib.Seq.Race.{interleave, late_publish, both_enter, first_calls_collide}

abbrev fresh : Store
fresh = record {
  heap = λ _. record { cur_seq = 0; max_seq = 0 };
  next = 0;
  seq_map = none;
  row = none;
}

abbrev fine : Replies
fine = record { query = success; insert = success; extend = success }

-- The table's answer is lost, so the caller panics though the table has reserved numbers.
abbrev flaky : Replies
flaky = record { query = success; insert = success; extend = lost }

abbrev history : List Event
history = call 0 fine ∷ call 0 fine ∷ restart ∷ call 0 flaky ∷ call 0 fine ∷ []

issued_runs : issued history fresh ≡ 1000001 ∷ 1000002 ∷ 1001001 ∷ []
unfolding issued gen_seq
issued_runs = refl

issued-Increasing_example : Increasing (last fresh) (issued history fresh)
issued-Increasing_example =
    issued-Increasing history fresh (record { within = tt; has_row = refl }) (omega arith)

abbrev loaded : Store
loaded = record fresh { row = some 5000 }

first_calls_collide_example :
    ((interleave late_publish (both_enter loaded)).left ≡ done 5001)
    × ((interleave late_publish (both_enter loaded)).right ≡ done 5001)
first_calls_collide_example = first_calls_collide loaded 5000 refl refl (omega arith)
