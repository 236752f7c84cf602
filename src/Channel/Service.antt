-- ===== src/Channel/Service.antt =====
-- Customer service ids and avatar paths.
use native.Mathlib.Nat.{mod-eq_of_lt, mod-lt}
use jian_yu_server_lib.Base.{
  ◌↔◌, ◌≤◌, zero, suc, List, length, ℕ, ◌<◌, ◌%◌, ◌≡◌, refl, true, inl, inr, [], ◌∷◌, ◌++◌, arith,
  Bool-cases, Lacks,
}
use jian_yu_server_lib.Base.Outcome.{returned, panicked, index}
use jian_yu_server_lib.Strings.{Str, str, itoa, contains, split, pieces, has_prefix, cons_head}
use jian_yu_server_lib.Strings.Laws.{pieces-ne-nil, split-append, split_of_Lacks, contains-append}
use jian_yu_server_lib.Channel.{
  compose_customer_service_channel_id, get_customer_service_channel_id,
  get_customer_service_visitor_uid, avatar_id, hash_crc32, get_group_avatar_file_path,
}

-- A customer service id composed of a visitor and a channel without a bar gives both back.
pub service_parts-compose :
    (vid channel : Str)
    → Lacks b'|' vid
    → Lacks b'|' channel
    → (get_customer_service_visitor_uid (compose_customer_service_channel_id vid channel)
        ≡ returned (vid, true))
      × (get_customer_service_channel_id (compose_customer_service_channel_id vid channel)
          ≡ returned (channel, true))
unfolding get_customer_service_channel_id get_customer_service_visitor_uid
    compose_customer_service_channel_id
service_parts-compose vid channel hv hc =
    rw
      (
        contains-append vid (b'|' ∷ []) channel,
        split-append vid channel b'|' [] hv,
        split_of_Lacks channel b'|' [] hc,
      )
      (refl, refl)

length-pieces : (s : Str) (d : ℕ) → 1 ≤ length (split s d [])
unfolding split
length-pieces s d = ground (arith, pieces-ne-nil d [] s 0)

-- A text with the separator splits into two pieces at least.
length-split_of_contains :
    (s : Str) (d : ℕ) → contains s (d ∷ []) ≡ true → 2 ≤ length (split s d [])
unfolding contains split pieces has_prefix cons_head
length-split_of_contains [] d h = cc
length-split_of_contains (c ∷ s) d h =
    ground (arith, length-split_of_contains s d, length-pieces s d)

index_total :
    (parts : List Str) (i : ℕ) → i < length parts → (p : Str) × (index parts i ≡ returned p)
index_total [] i h = absurd (omega arith)
index_total (p ∷ ps) zero h = (p, refl)
index_total (p ∷ ps) (suc i) h = index_total ps i (omega arith)

-- Looking up either part of any id ends without a panic, and the flag says whether the id has a
-- separator.
pub service_part_total :
    (id : Str)
    → ((v : Str) × (get_customer_service_visitor_uid id ≡ returned (v, contains id (b'|' ∷ []))))
      × ((c : Str) × (get_customer_service_channel_id id ≡ returned (c, contains id (b'|' ∷ []))))
unfolding get_customer_service_channel_id get_customer_service_visitor_uid
service_part_total id = elim (Bool-cases (contains id (b'|' ∷ []))) [
  | inl h ↦
      let long = length-split_of_contains id b'|' h in
      let (v, ev) = index_total (split id b'|' []) 0 (omega arith) in
      let (c, ec) = index_total (split id b'|' []) 1 (omega arith) in rw h ((v, rw ev), (c, rw ec))
  | inr h ↦ rw h (([], refl), ([], refl))
]

-- With a partition count from 1 to 2^32 - 1 the group avatar of any group has a path, in a bucket
-- below that count.
pub group_avatar_bucket :
    (partition : ℕ) (group_no : Str)
    → 0 < partition
    → partition < 4294967296
    → (k : ℕ) × (k < partition)
      × (get_group_avatar_file_path partition group_no
          ≡ returned (str "group" ++ (b'/' ∷ (itoa k ++ (b'/' ∷ (group_no ++ str ".png"))))))
unfolding get_group_avatar_file_path avatar_id
group_avatar_bucket partition group_no pos small =
    rw (mod-eq_of_lt small)
      (hash_crc32 group_no % partition, mod-lt (hash_crc32 group_no) pos, ground arith)

-- Without the bound the call panics, exactly when the count is 0 as a 32-bit number.
pub group_avatar_panics_iff :
    (partition : ℕ) (group_no : Str)
    → (get_group_avatar_file_path partition group_no ≡ panicked) ↔ (partition % 4294967296 ≡ 0)
unfolding get_group_avatar_file_path avatar_id
group_avatar_panics_iff partition group_no = (λ h. ground arith, λ h. ground arith)
