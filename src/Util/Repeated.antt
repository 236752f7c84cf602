-- ===== src/Util/Repeated.antt =====
-- RemoveRepeatedElement of pkg/util/string.go.
use jian_yu_server_lib.Base.{
  ◌≡◌, refl, ap, ◌∙◌, Bool, true, false, List, [], ◌∷◌, arith, if◌then◌else◌, Bool-cases, inl, inr,
}
use jian_yu_server_lib.Strings.{Str, str_eq}
use jian_yu_server_lib.Strings.Laws.{str_eq_iff}

-- The inner loop: whether one of the elements is the given one.
unfoldable pub repeated : Str → List Str → Bool
repeated s [] = false
repeated s (t ∷ arr) = let rest = repeated s arr in if str_eq s t then true else rest

-- RemoveRepeatedElement
unfoldable pub remove_repeated_element : List Str → List Str
unfolding repeated
remove_repeated_element [] = []
remove_repeated_element (s ∷ arr) =
    let rest = remove_repeated_element arr in if repeated s arr then rest else s ∷ rest

-- No element is equal to a later one.
unfoldable pub Distinct : List Str → Type 0
Distinct [] = Unit
Distinct (s ∷ arr) = (repeated s arr ≡ false) × Distinct arr

repeated-remove :
    (s : Str) (arr : List Str) → repeated s (remove_repeated_element arr) ≡ repeated s arr
unfolding repeated remove_repeated_element
repeated-remove s [] = refl
repeated-remove s (t ∷ arr) =
    ground (arith, str_eq_iff s t, repeated-remove s arr, repeated-remove t arr)

Distinct-remove : (arr : List Str) → Distinct (remove_repeated_element arr)
unfolding Distinct remove_repeated_element
Distinct-remove [] = tt
Distinct-remove (s ∷ arr) = elim (Bool-cases (repeated s arr)) [
  | inl e ↦ rw e (Distinct-remove arr)
  | inr e ↦ rw e (repeated-remove s arr ∙ e, Distinct-remove arr)
]

remove-kept : (arr : List Str) → Distinct arr → remove_repeated_element arr ≡ arr
unfolding Distinct remove_repeated_element
remove-kept [] d = refl
remove-kept (s ∷ arr) (first, d) = rw first (ap (λ l. s ∷ l) (remove-kept arr d))

-- RemoveRepeatedElement returns a list without repeated elements that has the same elements as the
-- given one, and that is the given one where it has no repeated elements.
pub remove_repeated_element_lem :
    (arr : List Str)
    → Distinct (remove_repeated_element arr)
      × ((s : Str) → repeated s (remove_repeated_element arr) ≡ repeated s arr)
      × (Distinct arr → remove_repeated_element arr ≡ arr)
remove_repeated_element_lem arr = (Distinct-remove arr, λ s. repeated-remove s arr, remove-kept arr)
