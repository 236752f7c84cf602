-- ===== src/Http/Roles.antt =====
-- Which roles pass the two checks.
use jian_yu_server_lib.Base.{
  ◌≡◌, ◌↔◌, ◌⊎◌, refl, inl, inr, true, false, none, List, [], ◌∷◌, arith, Bool-cases,
}
use jian_yu_server_lib.Strings.{Str, str, str_eq}
use jian_yu_server_lib.Strings.Laws.{str_eq_iff}
use jian_yu_server_lib.Http.{
  is_one_of, valid_roles, role_super_admin, check_login_role, check_login_role_is_super_admin,
}

-- The role is in the list.
abbrev pub OneOf : Str → List Str → Type 0
OneOf role [] = ⊥
OneOf role (r ∷ rs) = (role ≡ r) ⊎ OneOf role rs

is_one_of_sound : (role : Str) (rs : List Str) → is_one_of role rs ≡ true → OneOf role rs
unfolding is_one_of
is_one_of_sound role [] h = cc
is_one_of_sound role (r ∷ rs) h = elim (Bool-cases (str_eq role r)) [
  | inl same ↦ inl ((str_eq_iff role r).0 same)
  | inr other ↦ inr (is_one_of_sound role rs (ground arith))
]

is_one_of_complete : (role : Str) (rs : List Str) → OneOf role rs → is_one_of role rs ≡ true
unfolding is_one_of
is_one_of_complete role [] h = absurd h
is_one_of_complete role (r ∷ rs) (inl same) = ground (arith, str_eq_iff role r)
is_one_of_complete role (r ∷ rs) (inr later) = ground (arith, is_one_of_complete role rs later)

empty_not_valid : is_one_of [] valid_roles ≡ false
unfolding is_one_of str str_eq
empty_not_valid = refl

-- A role passes CheckLoginRole exactly when it is one of the six role codes.
pub check_login_role_iff : (role : Str) → (check_login_role role ≡ none) ↔ OneOf role valid_roles
unfolding check_login_role
check_login_role_iff role = (
  λ h. is_one_of_sound role valid_roles (ground arith),
  λ one.
      ground (arith, is_one_of_complete role valid_roles one, str_eq_iff role [], empty_not_valid),
)

-- The stricter check passes the super administrator alone, who passes the other check too.
pub super_admin_iff :
    (role : Str)
    → (check_login_role_is_super_admin role ≡ none)
      ↔ ((role ≡ role_super_admin) × (check_login_role role ≡ none))
unfolding check_login_role_is_super_admin check_login_role
super_admin_iff role = (
  λ h.
      let same : role ≡ role_super_admin = ground (arith, str_eq_iff role role_super_admin) in
      (same, (check_login_role_iff role).1 (inl same)),
  λ (same, passes). ground (arith, str_eq_iff role role_super_admin),
)
