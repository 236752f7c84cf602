-- ===== src/Strings/Laws.antt =====
-- Laws of the string functions: comparison, prefixes, splitting and joining.
use jian_yu_server_lib.Base.{
  ℕ, zero, suc, ◌≡◌, ◌≢◌, ◌↔◌, refl, ap, true, false, inl, inr, List, [], ◌∷◌, ◌++◌, arith,
  Bool-cases, length, drop, Lacks,
}
use jian_yu_server_lib.Strings.{
  Str, str_eq, has_prefix, has_suffix, contains, cons_head, pieces, split, join,
}

pub str_eq_refl : (s : Str) → str_eq s s ≡ true
unfolding str_eq
str_eq_refl [] = refl
str_eq_refl (c ∷ s) = ground (arith, str_eq_refl s)

pub str_eq_sound : (s t : Str) → str_eq s t ≡ true → s ≡ t
unfolding str_eq
str_eq_sound [] [] h = refl
str_eq_sound [] (d ∷ t) h = cc
str_eq_sound (c ∷ s) [] h = cc
str_eq_sound (c ∷ s) (d ∷ t) h = ground (arith, str_eq_sound s t)

pub str_eq_iff : (s t : Str) → (str_eq s t ≡ true) ↔ (s ≡ t)
str_eq_iff s t = (str_eq_sound s t, λ p. rw p (str_eq_refl t))

pub ne→str_eq : (s t : Str) → s ≢ t → str_eq s t ≡ false
ne→str_eq s t h = ground (arith, str_eq_iff s t)

pub has_prefix-append : (p s : Str) → has_prefix (p ++ s) p ≡ true
unfolding has_prefix
has_prefix-append [] [] = refl
has_prefix-append [] (c ∷ s) = refl
has_prefix-append (c ∷ p) s = ground (arith, has_prefix-append p s)

pub append-drop_of_prefix : (p s : Str) → has_prefix s p ≡ true → p ++ drop (length p) s ≡ s
unfolding has_prefix
append-drop_of_prefix [] s h = refl
append-drop_of_prefix (d ∷ p) [] h = cc
append-drop_of_prefix (d ∷ p) (c ∷ s) h = ground (arith, append-drop_of_prefix p s)

pub has_suffix-append : (s p : Str) → has_suffix (s ++ p) p ≡ true
unfolding has_suffix
has_suffix-append [] [] = refl
has_suffix-append [] (d ∷ p) = ground (arith, str_eq_refl (d ∷ p))
has_suffix-append (c ∷ s) p = ground (arith, has_suffix-append s p)

contains_of_prefix : (s p : Str) → has_prefix s p ≡ true → contains s p ≡ true
unfolding contains
contains_of_prefix [] p h = h
contains_of_prefix (c ∷ s) p h = ground arith

pub contains-append : (a p b : Str) → contains (a ++ (p ++ b)) p ≡ true
unfolding contains
contains-append [] p b = contains_of_prefix (p ++ b) p (has_prefix-append p b)
contains-append (c ∷ a) p b = ground (arith, contains-append a p b)

pub not-contains_of_Lacks : (d : ℕ) (p s : Str) → Lacks d s → contains s (d ∷ p) ≡ false
unfolding contains
not-contains_of_Lacks d p [] h = refl
not-contains_of_Lacks d p (c ∷ s) h = ground (arith, not-contains_of_Lacks d p s h.1)

cons_head-ne-nil : (c : ℕ) (ps : List Str) → cons_head c ps ≢ []
unfolding cons_head
cons_head-ne-nil c [] e = cc
cons_head-ne-nil c (p ∷ ps) e = cc

pub pieces-ne-nil : (d : ℕ) (sep s : Str) (k : ℕ) → pieces d sep s k ≢ []
unfolding pieces
pieces-ne-nil d sep [] k e = cc
pieces-ne-nil d sep (c ∷ s) (suc k) e = pieces-ne-nil d sep s k e
pieces-ne-nil d sep (c ∷ s) zero e = ground (arith, cons_head-ne-nil c (pieces d sep s zero))

join-cons :
    (p : Str) (ps : List Str) (sep : Str) → ps ≢ [] → join (p ∷ ps) sep ≡ p ++ (sep ++ join ps sep)
unfolding join
join-cons p [] sep h = absurd (h refl)
join-cons p (q ∷ ps) sep h = refl

join-cons_head :
    (c : ℕ) (ps : List Str) (sep : Str) → ps ≢ [] → join (cons_head c ps) sep ≡ c ∷ join ps sep
unfolding join cons_head
join-cons_head c [] sep h = absurd (h refl)
join-cons_head c (p ∷ []) sep h = refl
join-cons_head c (p ∷ q ∷ ps) sep h = refl

-- Joining what is still to be passed over and the pieces gives the text back.
join-pieces : (d : ℕ) (sep s : Str) (k : ℕ) → join (pieces d sep s k) (d ∷ sep) ≡ drop k s
unfolding pieces
join-pieces d sep [] zero = unfold join in refl
join-pieces d sep [] (suc k) = unfold join in refl
join-pieces d sep (c ∷ s) (suc k) = join-pieces d sep s k
join-pieces d sep (c ∷ s) zero = elim (Bool-cases (has_prefix (c ∷ s) (d ∷ sep))) [
  | inl at_sep ↦
      rw (at_sep, pieces)
        (rw
          (
            join-cons [] _ (d ∷ sep) (pieces-ne-nil d sep s (length sep)),
            join-pieces d sep s (length sep),
          )
          (append-drop_of_prefix (d ∷ sep) (c ∷ s) at_sep))
  | inr other ↦
      rw (other, pieces)
        (rw (join-cons_head c _ (d ∷ sep) (pieces-ne-nil d sep s zero), join-pieces d sep s zero)
          refl)
]

pub join-split : (s : Str) (d : ℕ) (sep : Str) → join (split s d sep) (d ∷ sep) ≡ s
unfolding split
join-split s d sep = join-pieces d sep s 0

pub pieces-skip : (d : ℕ) (sep a b : Str) → pieces d sep (a ++ b) (length a) ≡ pieces d sep b 0
unfolding pieces
pieces-skip d sep [] b = refl
pieces-skip d sep (c ∷ a) b = pieces-skip d sep a b

-- A part without the separator's first byte is cut off whole.
pub split-append :
    (a b : Str) (d : ℕ) (sep : Str)
    → Lacks d a
    → split (a ++ ((d ∷ sep) ++ b)) d sep ≡ a ∷ split b d sep
unfolding split pieces
split-append [] b d sep h =
    rw (has_prefix-append (d ∷ sep) b, pieces) (ap (λ ps. [] ∷ ps) (pieces-skip d sep sep b))
split-append (c ∷ a) b d sep h = ground (arith, split-append a b d sep h.1)

pub split_of_Lacks : (a : Str) (d : ℕ) (sep : Str) → Lacks d a → split a d sep ≡ a ∷ []
unfolding split pieces has_prefix cons_head
split_of_Lacks [] d sep h = refl
split_of_Lacks (c ∷ a) d sep h = ground (arith, split_of_Lacks a d sep h.1)

pub split-ne-nil : (s : Str) (d : ℕ) (sep : Str) → split s d sep ≢ []
unfolding split
split-ne-nil s d sep = pieces-ne-nil d sep s 0
