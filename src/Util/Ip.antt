-- ===== src/Util/Ip.antt =====
-- pkg/util/ip.go: the addresses of an intranet, and the address of a client behind proxies.
use jian_yu_server_lib.Base.{
  ℕ, ◌^◌, ◌<◌, ◌≡◌, refl, sym, ap, ◌∙◌, Bool, true, false, ◌&&◌, ◌||◌, not, none, some, List, [],
  ◌∷◌, ◌++◌, All, Lacks, if◌then◌else◌, arith, ◌==◌, leb,
}
use jian_yu_server_lib.Base.Int.{ℤ, pos, ltb_ℤ}
use jian_yu_server_lib.Strings.{Str, str, str_eq, has_prefix, split, itoa}
use jian_yu_server_lib.Strings.Parse.{Parsed, parse_int}
use jian_yu_server_lib.Strings.Laws.{str_eq_iff, split-append, split_of_Lacks}
use jian_yu_server_lib.Strings.Decimal.{IsDigit, itoa-IsDigit, parse_int-itoa}

-- `err == nil && second >= 16 && second <= 31`
unfoldable pub second_in_range : Parsed ℤ → Bool
second_in_range p = elim p.err [
  | some e ↦ false
  | none ↦ not (ltb_ℤ p.value (pos 16)) && not (ltb_ℤ (pos 31) p.value)
]

-- The test of an address that begins with "172.", by its parts
unfoldable pub parts_in_range : List Str → Bool
unfolding second_in_range
parts_in_range (a ∷ b ∷ c ∷ d ∷ []) = second_in_range (parse_int b)
parts_in_range arr = false

-- IsIntranet
unfoldable pub is_intranet : Str → Bool
is_intranet ip_str =
    if has_prefix ip_str (str "10.") || has_prefix ip_str (str "192.168.")
    then true
    else if has_prefix ip_str (str "172.")
    then parts_in_range (split ip_str b'.' [])
    else false

-- An IPv4 address in decimal
abbrev pub dotted : ℕ → ℕ → ℕ → ℕ → Str
dotted a b c d = itoa a ++ (b'.' ∷ (itoa b ++ (b'.' ∷ (itoa c ++ (b'.' ∷ itoa d)))))

-- Whether the first part of a text is the first part of a prefix is decided by the two alone.
has_prefix_of_parts :
    (s t r q : Str)
    → Lacks b'.' s
    → Lacks b'.' t
    → has_prefix (s ++ (b'.' ∷ r)) (t ++ (b'.' ∷ q)) ≡ (str_eq s t && has_prefix r q)
unfolding has_prefix str_eq
has_prefix_of_parts [] [] r q hs ht = refl
has_prefix_of_parts [] (d ∷ t) r q hs ht = ground arith
has_prefix_of_parts (c ∷ s) [] r q hs ht = ground arith
has_prefix_of_parts (c ∷ s) (d ∷ t) r q hs ht =
    ground (arith, has_prefix_of_parts s t r q hs.1 ht.1)

Lacks-of_digits : (s : Str) → All IsDigit s → Lacks b'.' s
Lacks-of_digits [] h = tt
Lacks-of_digits (c ∷ s) h = (λ e. omega arith, Lacks-of_digits s h.1)

itoa-Lacks : (n : ℕ) → Lacks b'.' (itoa n)
itoa-Lacks n = Lacks-of_digits (itoa n) (itoa-IsDigit n)

itoa_injective : (m n : ℕ) → m < 2 ^ 63 → n < 2 ^ 63 → itoa m ≡ itoa n → m ≡ n
itoa_injective m n hm hn e =
    let p : pos m ≡ pos n =
      ap (λ r. r.value) (sym (parse_int-itoa m hm))
      ∙ (ap (λ s. (parse_int s).value) e ∙ ap (λ r. r.value) (parse_int-itoa n hn)) in
    cc

str_eq-itoa : (m n : ℕ) → m < 256 → n < 256 → str_eq (itoa m) (itoa n) ≡ (m == n)
str_eq-itoa m n hm hn = ground (
  arith,
  str_eq_iff (itoa m) (itoa n),
  itoa_injective m n (omega arith) (omega arith),
  λ (p : m ≡ n). ap itoa p,
)

split-dotted :
    (a b c d : ℕ) → split (dotted a b c d) b'.' [] ≡ itoa a ∷ itoa b ∷ itoa c ∷ itoa d ∷ []
split-dotted a b c d =
    rw
      (
        split-append (itoa a) _ b'.' [] (itoa-Lacks a),
        split-append (itoa b) _ b'.' [] (itoa-Lacks b),
        split-append (itoa c) _ b'.' [] (itoa-Lacks c),
        split_of_Lacks (itoa d) b'.' [] (itoa-Lacks d),
      )
      refl

module _ (a b c d : ℕ) (ha : a < 256) (hb : b < 256) where
  has_prefix_of_first :
      (n : ℕ) → n < 256 → has_prefix (dotted a b c d) (itoa n ++ (b'.' ∷ [])) ≡ (a == n)
  unfolding has_prefix
  has_prefix_of_first n h =
      has_prefix_of_parts (itoa a) (itoa n) _ [] (itoa-Lacks a) (itoa-Lacks n)
      ∙ ground (arith, str_eq-itoa a n ha h)

  has_prefix_of_two :
      (m n : ℕ)
      → m < 256
      → n < 256
      → has_prefix (dotted a b c d) (itoa m ++ (b'.' ∷ (itoa n ++ (b'.' ∷ []))))
        ≡ ((a == m) && (b == n))
  unfolding has_prefix
  has_prefix_of_two m n h k =
      has_prefix_of_parts (itoa a) (itoa m) _ _ (itoa-Lacks a) (itoa-Lacks m)
      ∙ rw
          (
            str_eq-itoa a m ha h,
            has_prefix_of_parts (itoa b) (itoa n) (itoa c ++ (b'.' ∷ itoa d)) [] (itoa-Lacks b)
                (itoa-Lacks n),
            str_eq-itoa b n hb k,
          )
          (ground arith)

prefix_10 : str "10." ≡ itoa 10 ++ (b'.' ∷ [])
unfolding str itoa
prefix_10 = refl

prefix_192 : str "192.168." ≡ itoa 192 ++ (b'.' ∷ (itoa 168 ++ (b'.' ∷ [])))
unfolding str itoa
prefix_192 = refl

prefix_172 : str "172." ≡ itoa 172 ++ (b'.' ∷ [])
unfolding str itoa
prefix_172 = refl

-- The address blocks of RFC 1918, by the first two parts
abbrev pub is_private : ℕ → ℕ → Bool
is_private a b = (a == 10) || (a == 192) && (b == 168) || (a == 172) && (leb 16 b && leb b 31)

-- Of the IPv4 addresses in decimal those of the blocks 10.0.0.0/8, 172.16.0.0/12 and
-- 192.168.0.0/16 count as addresses of the intranet, and no others.
pub is_intranet-dotted :
    (a b c d : ℕ) → a < 256 → b < 256 → is_intranet (dotted a b c d) ≡ is_private a b
unfolding is_intranet parts_in_range second_in_range
is_intranet-dotted a b c d ha hb =
    rw
      (
        prefix_10,
        prefix_192,
        prefix_172,
        has_prefix_of_first a b c d ha hb 10 (omega arith),
        has_prefix_of_two a b c d ha hb 192 168 (omega arith) (omega arith),
        has_prefix_of_first a b c d ha hb 172 (omega arith),
        split-dotted a b c d,
        parse_int-itoa b (omega arith),
      )
      (ground arith)
