-- ===== src/Redis/Tests.antt =====
-- Two callers that take a key, hashes and scores.
use jian_yu_server_lib.Base.{◌≡◌, refl, none, some, [], ◌∷◌}
use jian_yu_server_lib.Base.Int.{pos}
use jian_yu_server_lib.Strings.{Str, str_eq}
use package.jian_yu_server_lib.Redis.Conn.{lock}
use package.jian_yu_server_lib.Redis.Locks.{lock_held}
use package.jian_yu_server_lib.Redis.Memory.{Server, memory_client, memory_laws, put}

abbrev empty : Server
empty key = none

abbrev key : Str
key = b'k' ∷ []

abbrev alice : Str
alice = b'a' ∷ []

abbrev bob : Str
bob = b'b' ∷ []

-- Alice has the key.
abbrev taken : Server
taken = put empty key (some alice)

lock_held_example :
    ((lock memory_client taken key bob (pos 9)).1 ≡ none)
    × ((lock memory_client taken key bob (pos 9)).0 key ≡ some alice)
unfolding str_eq memory_laws
lock_held_example = lock_held memory_client memory_laws taken key bob alice (pos 9) refl refl
