-- ===== src/Channel/FakeId.antt =====
-- What the fake channel ids of common/msg.go promise.
use jian_yu_server_lib.Base.{
  ◌≡◌, ◌≢◌, ◌↔◌, sym, ap, ◌∙◌, true, ◌⊎◌, inl, inr, List, [], ◌∷◌, ◌++◌, arith, ltb, Bool-cases,
  Lacks,
}
use jian_yu_server_lib.Strings.{Str, split}
use jian_yu_server_lib.Strings.Laws.{str_eq_iff, split-append, split_of_Lacks, contains-append}
use jian_yu_server_lib.Channel.{
  hash_crc32, get_fake_channel_id_with, is_fake_channel, get_to_channel_id_with_fake_channel_id,
}

-- `x@y` with neither part holding an `@` splits into its two parts.
pub split_pair :
    (x y : Str) → Lacks b'@' x → Lacks b'@' y → split (x ++ (b'@' ∷ y)) b'@' [] ≡ x ∷ y ∷ []
split_pair x y hx hy = split-append x y b'@' [] hx ∙ ap (λ ps. x ∷ ps) (split_of_Lacks y b'@' [] hy)

abbrev first_part : List Str → Str
first_part [] = []
first_part (p ∷ ps) = p

abbrev second_part : List Str → Str
second_part [] = []
second_part (p ∷ ps) = first_part ps

-- So two such pairs that are joined to one text are the same pair.
pair_injective :
    (x y u v : Str)
    → Lacks b'@' x
    → Lacks b'@' y
    → Lacks b'@' u
    → Lacks b'@' v
    → x ++ (b'@' ∷ y) ≡ u ++ (b'@' ∷ v)
    → (x ≡ u) × (y ≡ v)
pair_injective x y u v hx hy hu hv e =
    let same : x ∷ y ∷ [] ≡ u ∷ v ∷ [] =
      sym (split_pair x y hx hy) ∙ (ap (λ s. split s b'@' []) e ∙ split_pair u v hu hv) in
    (ap first_part same, ap second_part same)

-- The id is one of the two orders.
pub fake_orders :
    (a b : Str)
    → (get_fake_channel_id_with a b ≡ a ++ (b'@' ∷ b))
      ⊎ (get_fake_channel_id_with a b ≡ b ++ (b'@' ∷ a))
unfolding get_fake_channel_id_with
fake_orders a b = elim (Bool-cases (ltb (hash_crc32 b) (hash_crc32 a))) [
  | inl h ↦ inl (rw h)
  | inr h ↦ inr (rw h)
]

-- Of two uids without an at sign, either party finds the other one in the id of their channel,
-- whatever the hashes are.
pub to_channel-fake :
    (a b : Str)
    → Lacks b'@' a
    → Lacks b'@' b
    → (get_to_channel_id_with_fake_channel_id (get_fake_channel_id_with a b) a ≡ b)
      × (get_to_channel_id_with_fake_channel_id (get_fake_channel_id_with a b) b ≡ a)
unfolding get_to_channel_id_with_fake_channel_id
to_channel-fake a b ha hb = elim (fake_orders a b) [
  | inl e ↦ rw (e, split_pair a b ha hb) (ground (arith, str_eq_iff a a, str_eq_iff a b))
  | inr e ↦ rw (e, split_pair b a hb ha) (ground (arith, str_eq_iff b b, str_eq_iff b a))
]

-- The id of a conversation is a fake channel id.
pub is_fake_channel-fake : (a b : Str) → is_fake_channel (get_fake_channel_id_with a b) ≡ true
unfolding is_fake_channel
is_fake_channel-fake a b = elim (fake_orders a b) [
  | inl e ↦ rw e (contains-append a (b'@' ∷ []) b)
  | inr e ↦ rw e (contains-append b (b'@' ∷ []) a)
]

-- For two different uids without an at sign, the ids of their conversation, seen from its two ends,
-- are one id exactly when the uids have different hashes.
pub fake_symmetric_iff :
    (a b : Str)
    → Lacks b'@' a
    → Lacks b'@' b
    → a ≢ b
    → (get_fake_channel_id_with a b ≡ get_fake_channel_id_with b a) ↔ (hash_crc32 a ≢ hash_crc32 b)
unfolding get_fake_channel_id_with
fake_symmetric_iff a b ha hb ne = (
  λ e same. ne (sym (pair_injective b a a b hb ha ha hb (ground arith)).0),
  λ differ. ground arith,
)

-- Two conversations with one id, of uids without an at sign, are between the same two parties.
pub fake_injective :
    (a b c d : Str)
    → Lacks b'@' a
    → Lacks b'@' b
    → Lacks b'@' c
    → Lacks b'@' d
    → get_fake_channel_id_with a b ≡ get_fake_channel_id_with c d
    → ((a ≡ c) × (b ≡ d)) ⊎ ((a ≡ d) × (b ≡ c))
fake_injective a b c d ha hb hc hd e = ground (
  arith,
  fake_orders a b,
  fake_orders c d,
  pair_injective a b c d,
  pair_injective a b d c,
  pair_injective b a c d,
  pair_injective b a d c,
)
