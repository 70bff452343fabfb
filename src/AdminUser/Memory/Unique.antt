-- ===== src/AdminUser/Memory/Unique.antt =====
-- The stored e-mail addresses are unique, as the indexes of the databases make them.
use reearth_accounts.Prelude.{
  ℕ, ◌+◌, ◌-◌, String, ◌≡◌, refl, sym, ap, ◌∙◌, false, some, List, [], ◌∷◌, arith, ltb, eq_iff,
  Bool-cases, inl, inr,
}
use reearth_accounts.Prelude.Dict.{lookup, lookup-insert}
use reearth_accounts.Prelude.Lists.{length, take, drop, length-drop, take_all, drop_all, take-nil}
use reearth_accounts.AdminUser.{AdminUser}
use reearth_accounts.AdminUser.Memory.{Data, email_taken, save, page}

-- No two entries have one address.
abbrev pub HasDistinctEmails : Data → Type 0
HasDistinctEmails d =
    (i j : ℕ) (u v : AdminUser)
    → lookup i d ≡ some u
    → lookup j d ≡ some v
    → u.email ≡ v.email
    → i ≡ j

-- Every entry stands under its own identifier.
abbrev pub IsKeyed : Data → Type 0
IsKeyed d = (i : ℕ) (u : AdminUser) → lookup i d ≡ some u → u.id ≡ i

not_taken :
    (id j : ℕ) (e : String) (v : AdminUser) (d : Data)
    → email_taken id e d ≡ false
    → lookup j d ≡ some v
    → v.email ≡ e
    → j ≡ id
not_taken id j e v [] t h same = cc
not_taken id j e v ((k, w) ∷ d) t h same = ground (arith, not_taken id j e v d, eq_iff w.email e)

-- Whether `Save` succeeds or not, in a repository where every entry stands under its own
-- identifier and no two entries have one address, this stays so.
pub save-HasDistinctEmails :
    (d : Data) (u : AdminUser)
    → IsKeyed d
    → HasDistinctEmails d
    → IsKeyed (save d u).1 × HasDistinctEmails (save d u).1
unfolding save
save-HasDistinctEmails d u k h = elim (Bool-cases (email_taken u.id u.email d)) [
  | inl taken ↦ rw taken (k, h)
  | inr free ↦ rw free (
    λ i v e. ground (arith, lookup-insert u.id i u d, k i v),
    λ i j v w p q same. ground (
      arith,
      lookup-insert u.id i u d,
      lookup-insert u.id j u d,
      h i j v w,
      not_taken u.id i u.email v d free,
      not_taken u.id j u.email w d free,
    ),
  )
]

-- The numbers of a clipped page
page_numbers :
    {A : Type 0} (all : List A) (off limit : ℕ)
    → ((page all off limit).1.total_count ≡ length all)
      × ((page all off limit).1.has_next ≡ ltb (off + limit) (length all))
page_numbers all off limit = (refl, ground arith)

page_items :
    {A : Type 0} (all : List A) (off limit : ℕ) → (page all off limit).0 ≡ take limit (drop off all)
page_items all off limit = elim (Bool-cases (ltb (length all) off)) [
  | inl past ↦
      rw
        (
          past,
          drop_all (length all) all (omega arith),
          drop_all off all (ground arith),
          take-nil limit,
        )
        (take-nil _)
  | inr inside ↦ elim (Bool-cases (ltb (length all) (off + limit))) [
    | inl short ↦
        rw (inside, short)
          (take_all (length all - off) (drop off all) (omega (arith, length-drop {0} off all))
            ∙ sym (take_all limit (drop off all) (ground (arith, length-drop off all))))
    | inr whole ↦ rw (inside, whole) (ap (λ n. take n (drop off all)) (omega arith))
  ]
]

-- A page clipped at the end of the list is the page that is not clipped: from the offset on, at
-- most as many items as the limit says; the total is that of the whole list, and `has_next` tells
-- whether items stand behind the page.
pub page_lem :
    {A : Type 0} (all : List A) (off limit : ℕ)
    → ((page all off limit).0 ≡ take limit (drop off all))
      × ((page all off limit).1.total_count ≡ length all)
      × ((page all off limit).1.has_next ≡ ltb (off + limit) (length all))
page_lem all off limit =
    let (total, next) = page_numbers all off limit in (page_items all off limit, total, next)
