-- ===== src/Listeners/Tests.antt =====
-- Listeners that are numbers.
use jian_yu_server_lib.Base.{ℕ, List, [], ◌∷◌}
use jian_yu_server_lib.Strings.{Str}
use package.jian_yu_server_lib.Listeners.Laws.{Registration, plain, once_only}

abbrev join_event : Str
join_event = b'j' ∷ []

abbrev quit_event : Str
quit_event = b'q' ∷ []

abbrev some_more : List (Registration ℕ)
some_more = once_only join_event 2 ∷ plain quit_event 3 ∷ []
