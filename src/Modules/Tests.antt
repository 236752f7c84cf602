-- ===== src/Modules/Tests.antt =====
-- Three modules, the second of which does not start.
use jian_yu_server_lib.Base.{ℕ, ◌≡◌, refl, true, none, some, [], ◌∷◌}
use package.jian_yu_server_lib.Modules.{
  Module, started, stopped, empty_registry, get_modules, start_all, stop_all,
}
use package.jian_yu_server_lib.Modules.Lifecycle.{add_all, rounds, made_once, start_stop}

abbrev fine_module : ℕ → Module
fine_module n = record {
  name = n ∷ [];
  setup_api = some true;
  setup_task = none;
  service = some n;
  start = some none;
  stop = none;
}

abbrev bad_module : ℕ → Module
bad_module n = record {
  name = n ∷ [];
  setup_api = none;
  setup_task = none;
  service = none;
  start = some (some (b'x' ∷ []));
  stop = none;
}

abbrev stuck_module : ℕ → Module
stuck_module n = record {
  name = n ∷ [];
  setup_api = none;
  setup_task = none;
  service = none;
  start = some none;
  stop = some (some (b'y' ∷ []));
}

made_once_example :
    ((get_modules ℕ (add_all (empty_registry ℕ) (fine_module ∷ bad_module ∷ [])) 1).0
      ≡ fine_module 1 ∷ bad_module 1 ∷ [])
    × ((get_modules ℕ
          (add_all
            (rounds
              (get_modules ℕ (add_all (empty_registry ℕ) (fine_module ∷ bad_module ∷ [])) 1).1
              ((fine_module ∷ [], 4) ∷ ([], 5) ∷ []))
            (fine_module ∷ []))
          2).0
        ≡ fine_module 1 ∷ bad_module 1 ∷ [])
made_once_example =
    made_once (fine_module ∷ bad_module ∷ []) 1 ((fine_module ∷ [], 4) ∷ ([], 5) ∷ [])
      (fine_module ∷ []) 2

start_stop_example :
    (start_all (fine_module 1 ∷ []) ≡ (started (1 ∷ []) ∷ [], none))
    × (start_all (fine_module 1 ∷ bad_module 2 ∷ fine_module 3 ∷ [])
        ≡ (started (1 ∷ []) ∷ started (2 ∷ []) ∷ [], some (b'x' ∷ [])))
    × (stop_all (bad_module 1 ∷ []) ≡ ([], none))
    × (stop_all (bad_module 1 ∷ stuck_module 2 ∷ stuck_module 3 ∷ [])
        ≡ (stopped (2 ∷ []) ∷ [], some (b'y' ∷ [])))
start_stop_example =
    start_stop (fine_module 1 ∷ []) (bad_module 2) (fine_module 3 ∷ []) (b'x' ∷ [])
      (bad_module 1 ∷ []) (stuck_module 2) (stuck_module 3 ∷ []) (b'y' ∷ []) (tt, tt) refl (tt, tt)
      refl
