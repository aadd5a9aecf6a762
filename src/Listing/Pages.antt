-- ===== src/Listing/Pages.antt =====
-- The rows of pages that follow each other.
use native.Mathlib.Nat.{suc-mul, zero-mul, add-mul, zero-add, mod-eq_of_lt}
use onepanel.Base.{
  ℕ, zero, suc, ◌+◌, ◌-◌, ◌*◌, ◌%◌, ◌^◌, ◌<◌, ◌≡◌, refl, ap, sym, ◌∙◌, some, List, [], ◌∷◌, ◌++◌,
  arith,
}
use onepanel.Listing.{
  PaginationRequest, to_uint64, new_request, start, offset, advance, drop_rows, take_rows,
  apply_to_select, pages,
}

module _ {ℓ} {A : Type ℓ} where
  drop_zero : (xs : List A) → drop_rows 0 xs ≡ xs
  unfolding drop_rows
  drop_zero [] = refl
  drop_zero (x ∷ xs) = refl

  take_zero : (xs : List A) → take_rows 0 xs ≡ []
  unfolding take_rows
  take_zero [] = refl
  take_zero (x ∷ xs) = refl

  drop-add : (a b : ℕ) (xs : List A) → drop_rows b (drop_rows a xs) ≡ drop_rows (a + b) xs
  unfolding drop_rows
  drop-add a b [] = refl
  drop-add zero b (x ∷ xs) =
      let same : b ≡ 0 + b = omega arith in ap (λ n. drop_rows n (x ∷ xs)) same
  drop-add (suc a) b (x ∷ xs) =
      let same : suc (a + b) ≡ suc a + b = omega arith in
      drop-add a b xs ∙ ap (λ n. drop_rows n (x ∷ xs)) same

  take-add :
      (a b : ℕ) (xs : List A)
      → take_rows a xs ++ take_rows b (drop_rows a xs) ≡ take_rows (a + b) xs
  unfolding take_rows drop_rows
  take-add a b [] = refl
  take-add zero b (x ∷ xs) =
      let same : b ≡ 0 + b = omega arith in ap (λ n. take_rows n (x ∷ xs)) same
  take-add (suc a) b (x ∷ xs) =
      let same : suc (a + b) ≡ suc a + b = omega arith in
      ap (λ ys. x ∷ ys) (take-add a b xs) ∙ ap (λ n. take_rows n (x ∷ xs)) same

abbrev page_at : ℕ → ℕ → PaginationRequest
page_at p s = record { page = suc p; page_size = s }

offset-page_at : (p s : ℕ) → suc p < 2 ^ 64 → p * s < 2 ^ 64 → offset (page_at p s) ≡ p * s
unfolding offset
offset-page_at p s h k =
    let before : (suc p + (2 ^ 64 - 1)) % 2 ^ 64 ≡ p = omega (arith, h) in
    rw before (mod-eq_of_lt k)

advance-page_at : (p s : ℕ) → suc (suc p) < 2 ^ 64 → advance (page_at p s) ≡ page_at (suc p) s
unfolding advance
advance-page_at p s h =
    let next : (suc p + 1) % 2 ^ 64 ≡ suc (suc p) = omega (arith, h) in
    ap (λ n. record { page = n; page_size = s }) next

pages-page_at {ℓ} :
    {A : Type ℓ} (n p s : ℕ) (rows : List A)
    → suc (p + n) < 2 ^ 64
    → (p + n) * s < 2 ^ 64
    → pages n (page_at p s) rows ≡ take_rows (n * s) (drop_rows (p * s) rows)
unfolding pages apply_to_select
pages-page_at zero p s rows h k = sym (
    ap (λ m. take_rows m (drop_rows (p * s) rows)) (zero-mul s)
    ∙ take_zero (drop_rows (p * s) rows))
pages-page_at (suc n) p s rows h k =
    let whole : (p + suc n) * s ≡ p * s + suc n * s = add-mul p (suc n) s in
    let below : p * s < 2 ^ 64 = omega (arith, whole, k) in
    let shifted : suc p + n ≡ p + suc n = omega arith in
    let rest = pages-page_at n (suc p) s rows (omega (arith, h)) (rw shifted k) in
    rw (offset-page_at p s (omega (arith, h)) below) (
      rw (advance-page_at p s (omega (arith, h))) (
        rw rest (
          ap (λ m. take_rows s (drop_rows (p * s) rows) ++ take_rows (n * s) (drop_rows m rows))
            (suc-mul p s)
          ∙ ap (λ ys. take_rows s (drop_rows (p * s) rows) ++ take_rows (n * s) ys)
              (sym (drop-add (p * s) s rows))
          ∙ take-add s (n * s) (drop_rows (p * s) rows)
          ∙ ap (λ m. take_rows m (drop_rows (p * s) rows)) (commuted n s))))
  where
    commuted : (n s : ℕ) → s + n * s ≡ suc n * s
    commuted n s = rw suc-mul (omega arith)

-- The first pages of a list, from `Start` with a page size that is not 0 and fits an int32, each of the next by
-- `Advance`, are the first rows of the list, without a gap or a repetition, as long as the number of rows
-- and of pages fits 64 bits; so enough pages are the whole list.
pub pages-start {ℓ} :
    {A : Type ℓ} (n s : ℕ) (rows : List A)
    → 0 < s
    → s < 2 ^ 31
    → suc n < 2 ^ 64
    → n * s < 2 ^ 64
    → pages n (start (some s)) rows ≡ take_rows (n * s) rows
unfolding start new_request to_uint64
pages-start n s rows h b c d =
    let first : start (some s) ≡ page_at 0 s = ground (arith, h, b) in
    rw first (
      pages-page_at n 0 s rows (omega (arith, c)) (rw (zero-add n) d)
      ∙ ap (λ m. take_rows (n * s) (drop_rows m rows)) (zero-mul s)
      ∙ ap (take_rows (n * s)) (drop_zero rows))
