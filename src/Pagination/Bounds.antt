-- ===== src/Pagination/Bounds.antt =====
-- The bounds of a page, and up to which page its offset is the right one.
use reearth_accounts.Prelude.{
  ℕ, ◌-◌, ◌+◌, ◌*◌, ◌%◌, ◌≤◌, ◌<◌, ◌≡◌, ap, ◌∙◌, arith, false, ltb, Bool-cases, ◌⊎◌, inl, inr,
}
use Prim.Native.Nat.{◌^◌}
use reearth_accounts.Pagination.{is_positive, page_number, page_size, to_pagination}

pub page_size_lem : (per_page : ℕ) → (1 ≤ page_size per_page) × (page_size per_page ≤ 100)
page_size_lem per_page = ground arith

product : (p k : ℕ) → k ≤ 100 → p * k ≤ p * 100
product p k b = grind arith

small : (p k : ℕ) → p < 2 ^ 56 → k ≤ 100 → ((p * k) % 2 ^ 64 ≡ p * k) × (p * k < 2 ^ 63)
small p k h b = (omega (arith, product p k b), omega (arith, product p k b))

before : (page : ℕ) → page ≤ 2 ^ 56 → page_number page - 1 < 2 ^ 56
before page h = ground arith

wrapped :
    (q : ℕ)
    → q < 2 ^ 62
    → ((page_number (2 ^ 58 + q + 1) - 1) * 64) % 2 ^ 64 ≡ ((page_number (q + 1) - 1) * 64) % 2 ^ 64
wrapped q h = ground arith

before_large : (page : ℕ) → 2 ^ 63 ≤ page → page_number page ≡ 1
before_large page h = ground arith

before_positive : (page : ℕ) → page < 2 ^ 63 → page_number page - 1 ≡ page - 1
before_positive page h = ground arith

-- The rows of a page for what is asked for
abbrev pub IsLimit : ℕ → ℕ → Type 0
IsLimit per_page limit =
    ((1 ≤ per_page) × (per_page ≤ 100) × (limit ≡ per_page))
    ⊎ (((100 < per_page) × (per_page < 2 ^ 63) × (limit ≡ 100))
        ⊎ (((per_page ≡ 0) ⊎ (2 ^ 63 ≤ per_page)) × (limit ≡ 50)))

-- The rows before a page
abbrev pub IsOffset : ℕ → ℕ → ℕ → Type 0
IsOffset page limit offset =
    ((page ≤ 2 ^ 56) × (offset ≡ (page - 1) * limit) × (offset < 2 ^ 63))
    ⊎ (((2 ^ 56 < page) × (page < 2 ^ 63) × (offset ≡ ((page - 1) * limit) % 2 ^ 64))
        ⊎ ((2 ^ 63 ≤ page) × (offset ≡ 0)))

not_positive : (w : ℕ) → is_positive w ≡ false → (w ≡ 0) ⊎ (2 ^ 63 ≤ w)
not_positive w other = elim (Bool-cases (ltb 0 w)) [
  | inl above ↦ inr (ground arith)
  | inr below ↦ inl (ground arith)
]

page_size-IsLimit : (per_page : ℕ) → IsLimit per_page (page_size per_page)
page_size-IsLimit per_page = elim (Bool-cases (is_positive per_page)) [
  | inl positive ↦ elim (Bool-cases (ltb 100 per_page)) [
    | inl many ↦ inr (inl (ground arith, ground arith, ground arith))
    | inr few ↦ inl (ground arith, ground arith, ground arith)
  ]
  | inr other ↦ inr (inr (not_positive per_page other, ground arith))
]

page-IsOffset :
    (page per_page : ℕ)
    → IsOffset page (page_size per_page) (((page_number page - 1) * page_size per_page) % 2 ^ 64)
page-IsOffset page per_page = elim (Bool-cases (ltb (2 ^ 56) page)) [
  | inr soon ↦
      let h : page ≤ 2 ^ 56 = ground arith in
      let (least, most) = page_size_lem per_page in
      let (exact, positive) =
        small (page_number page - 1) (page_size per_page) (before page h) most in
      let same = before_positive page (omega arith) in
      inl (h, exact ∙ ap (λ p. p * page_size per_page) same, omega (arith, exact, positive))
  | inl late ↦ elim (Bool-cases (ltb page (2 ^ 63))) [
    | inl below ↦
        let h : page < 2 ^ 63 = ground arith in
        inr (
          inl
            (ground arith, h, ap (λ p. (p * page_size per_page) % 2 ^ 64) (before_positive page h)))
    | inr negative ↦
        let h : 2 ^ 63 ≤ page = ground arith in
        inr (
          inr (
            h,
            ap (λ p. ((p - 1) * page_size per_page) % 2 ^ 64) (before_large page h) ∙ omega arith,
          ))
  ]
]

-- Whatever an int64 asks for, negative numbers too, a page has between 1 and 100 rows: as many as
-- asked for if that is from 1 to 100, 100 if it is more, and 50 if it is zero or negative. Up to page
-- 2 ^ 56 the offset is the number of the rows on the pages before, 0 for page 0, and is not negative
-- as an int64; for a later page it is that number modulo 2 ^ 64, and for a negative page it is 0.
pub to_pagination_lem :
    (page per_page : ℕ)
    → let o = to_pagination page per_page in
      (1 ≤ o.limit) × (o.limit ≤ 100) × IsLimit per_page o.limit × IsOffset page o.limit o.offset
unfolding to_pagination
to_pagination_lem page per_page =
    let (least, most) = page_size_lem per_page in
    (least, most, page_size-IsLimit per_page, page-IsOffset page per_page)

-- The offset wraps around: with 64 rows a page, page 2 ^ 58 + q + 1 is the same as page q + 1.
pub to_pagination_wraps :
    (q : ℕ) → q < 2 ^ 62 → to_pagination (2 ^ 58 + q + 1) 64 ≡ to_pagination (q + 1) 64
unfolding to_pagination
to_pagination_wraps q h = ap (λ o. record { offset = o; limit = 64 }) (wrapped q h)
