-- ===== src/Im/Group/Members.antt =====
-- The numbers and the members of a group notice fit together.
use jian_yu_server_lib.Base.{
  ℕ, zero, suc, ◌+◌, ◌<◌, ◌≡◌, refl, ap, ◌∙◌, sym, true, false, Bool-cases, inl, inr, some, List,
  [], ◌∷◌, ◌++◌, append_assoc, append-nil, arith, length, length-append, get_elem?, if◌then◌else◌,
}
use jian_yu_server_lib.Strings.{Str, str, join, str_eq}
use jian_yu_server_lib.Im.Json.{string, at, lookup}
use jian_yu_server_lib.Im.Request.{UserBaseVo}
use package.jian_yu_server_lib.Im.Group.{
  MsgGroupCreateReq, MsgGroupMembersReq, Numbered, placeholder, users, number_member,
  number_members, numbered, index_members, group_message, group_create_message,
  group_member_add_message, group_member_remove_message,
}

-- `{i}`, …, `{i + n - 1}`
abbrev pub placeholders : ℕ → ℕ → List Str
placeholders i zero = []
placeholders i (suc n) = placeholder i ∷ placeholders (suc i) n

-- The members that are not the creator, in their order.
abbrev pub others : Str → List UserBaseVo → List UserBaseVo
others creator [] = []
others creator (m ∷ ms) =
    let rest = others creator ms in if str_eq m.uid creator then rest else m ∷ rest

placeholders-suc :
    (i n k : ℕ) → k ≡ i + n → placeholders i (suc n) ≡ placeholders i n ++ (placeholder k ∷ [])
placeholders-suc i zero k h = ap (λ j. placeholder j ∷ []) (omega arith)
placeholders-suc i (suc n) k h =
    ap (λ l. placeholder i ∷ l) (placeholders-suc (suc i) n k (omega arith))

get_elem?-placeholders :
    (n i k : ℕ) → k < n → get_elem? (placeholders i n) k ≡ some (placeholder (i + k))
get_elem?-placeholders zero i k h = ground arith
get_elem?-placeholders (suc n) i zero h = ap (λ j. some (placeholder j)) (omega arith)
get_elem?-placeholders (suc n) i (suc k) h =
    get_elem?-placeholders n (suc i) k (ground arith) ∙ ap (λ j. some (placeholder j)) (omega arith)

index_members_lem : (i : ℕ) (ms : List UserBaseVo) → index_members i ms ≡ placeholders i (length ms)
unfolding index_members
index_members_lem i [] = refl
index_members_lem i (m ∷ ms) = ap (λ l. placeholder i ∷ l) (index_members_lem (suc i) ms)

-- The state after some turns of the loop.
IsNumbered : List UserBaseVo → Numbered → Type 0
IsNumbered done st =
    (st.i ≡ length done) × (st.params ≡ placeholders 0 (length done)) × (st.new_members ≡ done)

length-snoc : (ms : List UserBaseVo) (m : UserBaseVo) → length (ms ++ (m ∷ [])) ≡ suc (length ms)
length-snoc ms m = omega (arith, length-append ms (m ∷ []))

number_member-IsNumbered :
    (creator : Str) (m : UserBaseVo) (done : List UserBaseVo) (st : Numbered)
    → IsNumbered done st
    → str_eq m.uid creator ≡ false
    → IsNumbered (done ++ (m ∷ [])) (number_member creator st m)
unfolding IsNumbered number_member
number_member-IsNumbered creator m done st (hi, hp, hm) e =
    let n = length done in
    rw e (
      ap suc hi ∙ sym (length-snoc done m),
      ap (λ l. l ++ (placeholder st.i ∷ [])) hp
          ∙ sym (placeholders-suc 0 n st.i (omega arith))
          ∙ ap (placeholders 0) (sym (length-snoc done m)),
      ap (λ l. l ++ (m ∷ [])) hm,
    )

number_member_of_creator :
    (creator : Str) (m : UserBaseVo) (st : Numbered)
    → str_eq m.uid creator ≡ true
    → number_member creator st m ≡ st
unfolding number_member
number_member_of_creator creator m st e = rw e refl

number_members_lem :
    (creator : Str) (ms done : List UserBaseVo) (st : Numbered)
    → IsNumbered done st
    → IsNumbered (done ++ others creator ms) (number_members creator st ms)
unfolding number_members
number_members_lem creator [] done st h = rw (append-nil done) h
number_members_lem creator (m ∷ ms) done st h = elim (Bool-cases (str_eq m.uid creator)) [
  | inl e ↦
      rw (number_member_of_creator creator m st e, e) (number_members_lem creator ms done st h)
  | inr e ↦
      rw (e, sym (append_assoc done (m ∷ []) (others creator ms)))
        (number_members_lem creator ms (done ++ (m ∷ [])) (number_member creator st m)
          (number_member-IsNumbered creator m done st h e))
]

numbered-IsNumbered :
    (req : MsgGroupCreateReq) → IsNumbered (others req.creator req.members) (numbered req)
unfolding numbered IsNumbered
numbered-IsNumbered req =
    number_members_lem req.creator req.members [] (record { i = 0; params = []; new_members = [] })
      (refl, refl, refl)

-- The numbers in the content of a notice of a new group are those of the members it names in
-- "extra", from 0 up: the members of the request without the creator, in their order.
pub group_create_extra :
    (req : MsgGroupCreateReq)
    → (at "content" (group_create_message req).payload
        ≡ some (
            string (
              req.creator_name
              ++ (str "邀请"
                  ++ (join (placeholders 0 (length (others req.creator req.members))) (str ",")
                      ++ str "加入群聊")))))
      × (at "extra" (group_create_message req).payload
          ≡ some (users (others req.creator req.members)))
unfolding group_create_message group_message lookup IsNumbered
group_create_extra req = let h = numbered-IsNumbered req in rw (h.1, h.2) (refl, refl)

-- The numbers in the content of a notice that members were added or removed are those of all
-- members of the request, from 0 up, and "extra" lists these members.
pub group_members_extra :
    (req : MsgGroupMembersReq)
    → (at "content" (group_member_add_message req).payload
        ≡ some (
            string (
              req.operator_name
              ++ (str "邀请"
                  ++ (join (placeholders 0 (length req.members)) (str ",") ++ str "加入群聊")))))
      × (at "extra" (group_member_add_message req).payload ≡ some (users req.members))
      × (at "content" (group_member_remove_message req).payload
          ≡ some (
              string (
                req.operator_name
                ++ (str "将"
                    ++ (join (placeholders 0 (length req.members)) (str ",") ++ str "移除群聊")))))
      × (at "extra" (group_member_remove_message req).payload ≡ some (users req.members))
unfolding group_member_add_message group_member_remove_message group_message lookup
group_members_extra req = rw (index_members_lem 0 req.members) (refl, refl, refl, refl)
