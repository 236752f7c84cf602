-- ===== src/Strings/Blank.antt =====
-- A blank text holds no printable ASCII byte: no byte of a white space code point is one.
use jian_yu_server_lib.Base.{
  ℕ, zero, suc, ◌≡◌, true, [], ◌∷◌, refl, arith, take, drop, Lacks, ◌<◌, ◌++◌, false, Bool-cases,
  inl, inr,
}
use package.jian_yu_server_lib.Strings.{Str, space_width, trim_left, is_blank}
use jian_yu_server_lib.Strings.Laws.{str_eq_iff}

Lacks-take-drop : (d n : ℕ) (s : Str) → Lacks d (take n s) → Lacks d (drop n s) → Lacks d s
Lacks-take-drop d zero s h t = t
Lacks-take-drop d (suc n) [] h t = tt
Lacks-take-drop d (suc n) (c ∷ s) h t = (h.0, Lacks-take-drop d n s h.1 t)

module _ (d : ℕ) (above : 32 < d) (below : d < 128) where
  width-Lacks : (s : Str) (k : ℕ) → space_width s ≡ suc k → Lacks d (take (suc k) s)
  unfolding space_width
  width-Lacks [] k h = tt
  width-Lacks (a ∷ []) zero h = ground arith
  width-Lacks (a ∷ []) (suc k) h = absurd (ground arith)
  width-Lacks (a ∷ b ∷ []) zero h = ground arith
  width-Lacks (a ∷ b ∷ []) (suc zero) h = ground arith
  width-Lacks (a ∷ b ∷ []) (suc (suc k)) h = absurd (ground arith)
  width-Lacks (a ∷ b ∷ c ∷ s) zero h = ground arith
  width-Lacks (a ∷ b ∷ c ∷ s) (suc zero) h = ground arith
  width-Lacks (a ∷ b ∷ c ∷ s) (suc (suc zero)) h = ground arith
  width-Lacks (a ∷ b ∷ c ∷ s) (suc (suc (suc k))) h = absurd (ground arith)

  -- The step at a code point of width `w`.
  trim_step-Lacks :
      (c : ℕ) (s : Str) (w : ℕ)
      → space_width (c ∷ s) ≡ w
      → trim_left (c ∷ s) 0 ≡ []
      → ((k : ℕ) → trim_left s k ≡ [] → Lacks d (drop k s))
      → Lacks d (c ∷ s)
  unfolding trim_left
  trim_step-Lacks c s zero e h rest = absurd (cc (rw (e, trim_left) at h))
  trim_step-Lacks c s (suc k) e h rest =
      Lacks-take-drop d (suc k) (c ∷ s) (width-Lacks (c ∷ s) k e) (rest k (rw (e, trim_left) at h))

  trim_left-Lacks : (s : Str) (k : ℕ) → trim_left s k ≡ [] → Lacks d (drop k s)
  unfolding trim_left
  trim_left-Lacks [] zero h = tt
  trim_left-Lacks [] (suc k) h = tt
  trim_left-Lacks (c ∷ s) (suc k) h = trim_left-Lacks s k h
  trim_left-Lacks (c ∷ s) zero h = trim_step-Lacks c s _ refl h (trim_left-Lacks s)

  pub is_blank-Lacks : (s : Str) → is_blank s ≡ true → Lacks d s
  unfolding is_blank
  is_blank-Lacks s h = trim_left-Lacks s 0 ((str_eq_iff (trim_left s 0) []).0 h)

  Lacks-middle : (x y : Str) → ¬ Lacks d (x ++ (d ∷ y))
  Lacks-middle [] y h = h.0 refl
  Lacks-middle (c ∷ x) y h = Lacks-middle x y h.1

  -- A text with such a byte is not blank.
  pub not-is_blank : (x y : Str) → is_blank (x ++ (d ∷ y)) ≡ false
  not-is_blank x y = elim (Bool-cases (is_blank (x ++ (d ∷ y)))) [
    | inl blank ↦ absurd (Lacks-middle x y (is_blank-Lacks _ blank))
    | inr e ↦ e
  ]
