-- ===== src/Documents/Stored/Configs.antt =====
-- The configuration: which migrations are next, and what is loaded of what was stored.
use reearth_accounts.Prelude.{
  ℕ, ◌≤◌, String, ◌≡◌, ◌≢◌, refl, ◌∙◌, sym, subst, true, Option, none, some, List, [], ◌∷◌, ltb,
  arith, eq_iff, if◌then◌else◌,
}
use reearth_accounts.Prelude.Lists.{select}
use reearth_accounts.Documents.Configs.{
  Auth, Config, place, sort, from_first_after, next_migrations, new_config, document_model,
  new_config_row, row_model, auth_model, new_config_auth, auth_from, cert_of, key_of, policy_from,
}

abbrev IsBelow : ℕ → List ℕ → Type 0
IsBelow m [] = Unit
IsBelow m (x ∷ l) = (m ≤ x) × IsBelow m l

-- Each migration stands before later ones only.
abbrev pub IsSorted : List ℕ → Type 0
IsSorted [] = Unit
IsSorted (x ∷ l) = IsBelow x l × IsSorted l

IsBelow-trans : (m x : ℕ) (l : List ℕ) → m ≤ x → IsBelow x l → IsBelow m l
IsBelow-trans m x [] h b = tt
IsBelow-trans m x (y ∷ l) h b = ground (arith, IsBelow-trans m x l h b.1)

IsBelow-place : (m a : ℕ) (l : List ℕ) → m ≤ a → IsBelow m l → IsBelow m (place a l)
IsBelow-place m a [] h b = (h, tt)
IsBelow-place m a (x ∷ l) h b = ground (arith, IsBelow-place m a l h b.1)

place-IsSorted : (a : ℕ) (l : List ℕ) → IsSorted l → IsSorted (place a l)
place-IsSorted a [] s = (tt, tt)
place-IsSorted a (x ∷ l) s =
    ground (arith, place-IsSorted a l s.1, IsBelow-place x a l, IsBelow-trans a x l)

sort-IsSorted : (l : List ℕ) → IsSorted (sort l)
sort-IsSorted [] = tt
sort-IsSorted (a ∷ l) = place-IsSorted a (sort l) (sort-IsSorted l)

-- Behind the first that passes, all of a sorted list pass.
all_after : (c m : ℕ) (l : List ℕ) → ltb c m ≡ true → IsBelow m l → select (ltb c) l ≡ l
all_after c m [] h b = refl
all_after c m (x ∷ l) h b = ground (arith, all_after c m l h b.1)

from_first_after_lem : (c : ℕ) (l : List ℕ) → IsSorted l → from_first_after c l ≡ select (ltb c) l
from_first_after_lem c [] s = refl
from_first_after_lem c (m ∷ l) s = ground (arith, all_after c m l, from_first_after_lem c l s.1)

select-place :
    (c a : ℕ) (l : List ℕ)
    → IsSorted l
    → select (ltb c) (place a l)
      ≡ (if ltb c a then place a (select (ltb c) l) else select (ltb c) l)
select-place c a [] s = ground arith
select-place c a (x ∷ l) s = ground (arith, select-place c a l s.1, all_after c x l)

select-sort : (c : ℕ) (l : List ℕ) → select (ltb c) (sort l) ≡ sort (select (ltb c) l)
select-sort c [] = refl
select-sort c (a ∷ l) =
    select-place c a (sort l) (sort-IsSorted l) ∙ ground (arith, select-sort c l)

-- `NextMigrations` gives the migrations after the current one, all of them and no others, in their
-- order.
pub next_migrations_lem :
    (c : Config) (l : List ℕ)
    → (next_migrations c l ≡ sort (select (ltb c.migration) l)) × IsSorted (next_migrations c l)
unfolding next_migrations
next_migrations_lem c l =
    let e =
      from_first_after_lem c.migration (sort l) (sort-IsSorted l) ∙ select-sort c.migration l in
    (e, subst IsSorted (sym e) (sort-IsSorted (select (ltb c.migration) l)))

auth_document_kept : (a : Option Auth) → auth_model (new_config_auth a) ≡ a
auth_document_kept none = refl
auth_document_kept (some a) = refl

auth_row_kept :
    (a : Option Auth)
    → a ≢ some (record { cert = ""; key = "" })
    → auth_from (cert_of a) (key_of a) ≡ a
auth_row_kept none h = refl
auth_row_kept (some a) h = ground (arith, eq_iff a.cert "", eq_iff a.key "")

policy_row_kept : (p : Option String) → p ≢ some "" → policy_from p ≡ p
policy_row_kept none h = refl
policy_row_kept (some p) h = ground (arith, eq_iff p "")

-- A configuration is loaded from its document as stored. It is from its row, if it has no empty
-- policy and no key and certificate that are both empty.
pub config_stored :
    (c : Config)
    → c.default_policy ≢ some ""
    → c.auth ≢ some (record { cert = ""; key = "" })
    → (document_model (some (new_config c)) ≡ c) × (row_model (new_config_row c) ≡ c)
unfolding document_model new_config row_model new_config_row
config_stored c policy auth =
    rw
      (
        auth_document_kept c.auth,
        auth_row_kept c.auth auth,
        policy_row_kept c.default_policy policy,
      )
      (refl, refl)
