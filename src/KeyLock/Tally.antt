-- ===== src/KeyLock/Tally.antt =====
-- Sums over threads.
use jian_yu_server_lib.Base.{
  ℕ, zero, suc, ◌+◌, ◌≤◌, ◌≡◌, ◌≢◌, refl, ap, inl, inr, ◌⊎◌, some, List, [], ◌∷◌, arith, length,
  get_elem?, replicate,
}
use package.jian_yu_server_lib.KeyLock.Threads.{set}

one_or_zero : (n : ℕ) → (1 ≤ n) ⊎ (n ≡ 0)
one_or_zero zero = inr refl
one_or_zero (suc n) = inl (omega arith)

module _ {ℓ} {A : Type ℓ} (f : A → ℕ) where
  abbrev pub tally : List A → ℕ
  tally [] = 0
  tally (x ∷ xs) = f x + tally xs

  pub tally-set :
      (xs : List A) (i : ℕ) (a b : A)
      → get_elem? xs i ≡ some a
      → tally (set xs i b) + f a ≡ tally xs + f b
  tally-set [] i a b h = ground arith
  tally-set (x ∷ xs) zero a b h = ground arith
  tally-set (x ∷ xs) (suc i) a b h = ground (arith, tally-set xs i a b h)

  pub tally_ge : (xs : List A) (i : ℕ) (a : A) → get_elem? xs i ≡ some a → f a ≤ tally xs
  tally_ge [] i a h = ground arith
  tally_ge (x ∷ xs) zero a h = ground arith
  tally_ge (x ∷ xs) (suc i) a h = ground (arith, tally_ge xs i a h)

  pub tally_le_length : ((a : A) → f a ≤ 1) → (xs : List A) → tally xs ≤ length xs
  tally_le_length h [] = omega arith
  tally_le_length h (x ∷ xs) = ground (arith, h x, tally_le_length h xs)

  pub tally_two :
      (xs : List A) (i j : ℕ) (a b : A)
      → get_elem? xs i ≡ some a
      → get_elem? xs j ≡ some b
      → i ≢ j
      → f a + f b ≤ tally xs
  tally_two [] i j a b hi hj ne = ground arith
  tally_two (x ∷ xs) zero zero a b hi hj ne = absurd (ne refl)
  tally_two (x ∷ xs) zero (suc j) a b hi hj ne = ground (arith, tally_ge xs j b hj)
  tally_two (x ∷ xs) (suc i) zero a b hi hj ne = ground (arith, tally_ge xs i a hi)
  tally_two (x ∷ xs) (suc i) (suc j) a b hi hj ne =
      ground (arith, tally_two xs i j a b hi hj (λ e. ne (ap suc e)))

  pub tally-replicate : (n : ℕ) (a : A) → f a ≡ 0 → tally (replicate n a) ≡ 0
  tally-replicate zero a h = refl
  tally-replicate (suc n) a h = ground (arith, tally-replicate n a h)

  pub tally_pos :
      (xs : List A) → 1 ≤ tally xs → (i : ℕ) × (a : A) × (get_elem? xs i ≡ some a) × (1 ≤ f a)
  tally_pos [] h = absurd (omega arith)
  tally_pos (x ∷ xs) h = elim (one_or_zero (f x)) [
    | inl p ↦ (0, x, refl, p)
    | inr p ↦ let (i, a, at, pos) = tally_pos xs (omega arith) in (suc i, a, at, pos)
  ]

module _ {ℓ} {A : Type ℓ} where
  pub length-set : (xs : List A) (i : ℕ) (a : A) → length (set xs i a) ≡ length xs
  length-set [] i a = refl
  length-set (x ∷ xs) zero a = refl
  length-set (x ∷ xs) (suc i) a = omega (arith, length-set xs i a)
