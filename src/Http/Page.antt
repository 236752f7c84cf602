-- ===== src/Http/Page.antt =====
-- Paging, and the company code in a uid.
use jian_yu_server_lib.Base.{ℕ, ◌^◌, ◌≤◌, ◌<◌, ◌≡◌, ap, ◌∷◌, ◌++◌, arith, Lacks}
use jian_yu_server_lib.Base.Int.{ℤ}
use jian_yu_server_lib.Strings.{Str, itoa}
use jian_yu_server_lib.Strings.Laws.{split-append, split_of_Lacks}
use jian_yu_server_lib.Strings.Parse.{InInt64, parse_int-InInt64}
use jian_yu_server_lib.Strings.Decimal.{parse_int-itoa}
use jian_yu_server_lib.Http.{positive_or, get_page, first_or_empty, code_tail, uid_company_code}

positive_or_bounds :
    (d : ℕ) (n : ℤ)
    → 1 ≤ d
    → d < 2 ^ 63
    → InInt64 n
    → (1 ≤ positive_or d n) × (positive_or d n < 2 ^ 63)
positive_or_bounds d n low high h = ground arith

-- Whatever the query holds, the page index and the page size are positive int64 numbers.
pub get_page_bounds :
    (page_index page_size : Str)
    → (1 ≤ (get_page page_index page_size).0)
      × ((get_page page_index page_size).0 < 2 ^ 63)
      × (1 ≤ (get_page page_index page_size).1)
      × ((get_page page_index page_size).1 < 2 ^ 63)
unfolding get_page
get_page_bounds page_index page_size =
    let (a, b) =
      positive_or_bounds 1 _ (omega arith) (omega arith) (parse_int-InInt64 page_index) in
    let (c, d) =
      positive_or_bounds 15 _ (omega arith) (omega arith) (parse_int-InInt64 page_size) in
    (a, b, c, d)

-- Positive int64 numbers in decimal arrive unchanged.
pub get_page-itoa :
    (i n : ℕ) → 1 ≤ i → i < 2 ^ 63 → 1 ≤ n → n < 2 ^ 63 → get_page (itoa i) (itoa n) ≡ (i, n)
unfolding get_page
get_page-itoa i n low_i high_i low_n high_n =
    rw (parse_int-itoa i high_i, parse_int-itoa n high_n) (ground arith)

-- The company code is what stands before the word "code" in the uid.
pub uid_company_code-append :
    (company rest : Str)
    → Lacks b'c' company
    → uid_company_code (company ++ ((b'c' ∷ code_tail) ++ rest)) ≡ company
unfolding uid_company_code
uid_company_code-append company rest h =
    ap first_or_empty (split-append company rest b'c' code_tail h)

-- A uid without the letter c, so without the word "code", is its own company code.
pub uid_company_code_of_Lacks : (uid : Str) → Lacks b'c' uid → uid_company_code uid ≡ uid
unfolding uid_company_code
uid_company_code_of_Lacks uid h = ap first_or_empty (split_of_Lacks uid b'c' code_tail h)
