-- ===== src/Pagination/Cover.antt =====
-- Which rows a page has, and when there is a next one.
use git_hub_repository_resea.Base.{
  ℕ, suc, ◌+◌, ◌-◌, ◌*◌, ◌/◌, ◌<◌, ◌≤◌, ◌≡◌, ◌≢◌, ◌↔◌, refl, ap, ◌∙◌, none, List, leb, arith,
  Bool-cases, inl, inr,
}
use native.Mathlib.Nat.{le-div_iff_mul-le, div-mul-le_self, lt-div-mul-add, mul_comm, add-mul}
use git_hub_repository_resea.Pagination.{to_raw_params, ceil_div, create}

-- A number is below the number of pages exactly if that many full pages leave rows over.
below-ceil_div :
    (size page total : ℕ) → 0 < size → (page < ceil_div total size) ↔ (page * size < total)
unfolding ceil_div
below-ceil_div size page total positive =
    let rule = le-div_iff_mul-le {x = suc page} {y = total + size - 1} positive in
    (λ h. omega (arith, rule.0 h, positive), λ h. rule.1 (omega (arith, h, positive)))

no_more : (p q : ℕ) → p ≤ q → (suc p ≤ q → ⊥) → p ≡ q
no_more p q low high = ground arith

module _ (p size : ℕ) (positive : 0 < size) where
  offset_lem : size * (suc p - 1) ≡ p * size
  offset_lem = ap (λ q. size * q) (omega arith) ∙ mul_comm size p

  -- A page, whose number is at least 1, links to a next page exactly if there are rows behind its
  -- own, and the page that it links to is one of the pages.
  pub create-next :
      {T : Type 0} (items : List T) (total : ℕ)
      → ((create items (record { page = suc p; size = size }) total).links.next ≢ none)
        ↔ ((to_raw_params (record { page = suc p; size = size })).offset + size < total)
  unfolding create to_raw_params
  create-next items total =
      let (to, from) = below-ceil_div size (suc p) total positive in
      let comm = offset_lem in
      elim (Bool-cases (leb (suc p + 1) (ceil_div total size))) [
        | inl more ↦ (λ h. omega (arith, comm, to (ground arith)), λ h e. cc (more, e))
        | inr done ↦ (
          λ h. absurd (h (rw done refl)),
          λ h. absurd (ground (arith, from (omega (arith, comm, h)))),
        )
      ]

  -- Row `i` is among the rows of a page, which are as many as its limit from its offset on, exactly if the page's number is one more than `i / size`: so
  -- every row is on one page and on no other, and that page is within the number of pages.
  pub to_raw_params-cover :
      (i total : ℕ)
      → i < total
      → (((to_raw_params (record { page = suc p; size = size })).offset ≤ i)
            × (i
                < (to_raw_params (record { page = suc p; size = size })).offset
                  + (to_raw_params (record { page = suc p; size = size })).limit)
          ↔ (p ≡ i / size))
        × (i / size < ceil_div total size)
  unfolding to_raw_params
  to_raw_params-cover i total within =
      let comm = offset_lem in
      let low = div-mul-le_self i size in
      let high = lt-div-mul-add {a = i} positive in
      let fits = le-div_iff_mul-le {x = p} {y = i} positive in
      let over = le-div_iff_mul-le {x = suc p} {y = i} positive in
      let same_row : p ≡ i / size → p * size ≡ i / size * size = λ e. ap (λ q. q * size) e in
      (
        (
          λ (after, behind).
              no_more p (i / size) (fits.1 (omega (arith, comm, after)))
                (λ more. absurd (omega (arith, add-mul 1 p size, comm, over.0 more, behind))),
          λ e. (
            omega (arith, comm, fits.0 (omega (arith, e))),
            omega (arith, comm, same_row e, high),
          ),
        ),
        (below-ceil_div size (i / size) total positive).1 (omega (arith, low, within)),
      )
