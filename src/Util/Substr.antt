-- ===== src/Util/Substr.antt =====
-- Substr of pkg/util/common.go: a part of a text, by its runes. Sums are those of the integers, as
-- Go's are where they fit an int.
use jian_yu_server_lib.Base.{
  ℕ, ◌+◌, ◌-◌, ◌≤◌, ◌<◌, ◌≡◌, ◌↔◌, ◌⊎◌, false, List, [], length, take, drop, if◌then◌else◌, arith,
}
use jian_yu_server_lib.Base.Int.{ℤ, pos, negsuc, ◌+ℤ◌, ltb_ℤ, is_zero, neg_part}
use jian_yu_server_lib.Base.Outcome.{Outcome, returned, panicked}

-- `start` after the tests on it, for a text of `len_str` runes
unfoldable pub substr_start : ℕ → ℤ → ℤ
substr_start len_str start =
    let from_end = if ltb_ℤ start (pos 0) then pos len_str +ℤ start else start in
    if ltb_ℤ (pos len_str) from_end then pos len_str else from_end

-- `end` after the tests on it
unfoldable pub substr_end : ℕ → ℤ → ℤ → ℤ
substr_end len_str start size =
    if ltb_ℤ size (pos 0)
    then pos len_str +ℤ size
    else if ltb_ℤ (pos len_str) (start +ℤ size)
    then pos len_str
    else start +ℤ size

-- `runeStr[start:end]` of bounds that are in order and not above the length: it panics where the
-- lower one is negative.
unfoldable pub slice : List ℕ → ℤ → ℤ → Outcome (List ℕ)
slice runes (pos i) (pos j) = returned (take (j - i) (drop i runes))
slice runes (pos i) (negsuc j) = panicked
slice runes (negsuc i) end = panicked

-- Substr
unfoldable pub substr : List ℕ → ℤ → ℤ → Outcome (List ℕ)
substr runes start size =
    if is_zero size
    then returned []
    else let first = substr_start (length runes) start in
      let last = substr_end (length runes) first size in
      if ltb_ℤ last first then slice runes last first else slice runes first last

-- Substr panics exactly for a length that is not zero where the start, or the negative length,
-- reaches beyond the front of the text when it is counted from its end.
pub substr_panics_iff :
    (runes : List ℕ) (start size : ℤ)
    → (substr runes start size ≡ panicked) ↔ (
        (is_zero size ≡ false) × ((length runes < neg_part start) ⊎ (length runes < neg_part size)))
unfolding substr substr_start substr_end slice ◌+ℤ◌
substr_panics_iff runes start size = ground arith

-- A start and a length in the text give that part.
pub substr_within :
    (runes : List ℕ) (start size : ℕ)
    → start + size ≤ length runes
    → substr runes (pos start) (pos size) ≡ returned (take size (drop start runes))
unfolding substr substr_start substr_end slice ◌+ℤ◌
substr_within runes start size h = ground arith
