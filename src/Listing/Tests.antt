-- ===== src/Listing/Tests.antt =====
-- Requests for lists at concrete values.
use onepanel.Base.{ℕ, ◌≡◌, refl, some, List, [], ◌∷◌, arith, All, split, to_lower}
use onepanel.Listing.{start, pages, take_rows, Order, new_criteria, list_order}
use onepanel.Listing.Pages.{pages-start}
use onepanel.Listing.Sort.{IsDefaultOrTerm, list_order-IsDefaultOrTerm}

abbrev rows : List ℕ
rows = 1 ∷ 2 ∷ 3 ∷ 4 ∷ 5 ∷ []

abbrev newest : List Order
newest =
    record { property = "createdAt"; direction = "desc" }
    ∷ record { property = "x"; direction = "asc" }
    ∷ []

pages-start_example : pages 2 (start (some 2)) rows ≡ 1 ∷ 2 ∷ 3 ∷ 4 ∷ []
unfolding take_rows
pages-start_example = pages-start 2 2 rows (omega arith) (omega arith) (omega arith) (omega arith)

list_order-IsDefaultOrTerm_example : All IsDefaultOrTerm (list_order newest)
list_order-IsDefaultOrTerm_example =
    list_order-IsDefaultOrTerm "createdAt,DESC;x,asc" newest
      (unfold new_criteria split to_lower in refl)
