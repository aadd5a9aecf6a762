-- ===== src/Listing.antt =====
-- The requests for lists: pkg/util/request/pagination/pagination.go, pkg/util/request/sort/sort.go,
-- FormatColumnSelect of pkg/util/sql/sql.go, and the order of ListWorkspaces of pkg/workspace.go. An int32 is
-- given by its 32 bits, a uint64 is a number below 2 ^ 64.
pub mod Pages
pub mod Sort
pub mod Tests
use onepanel.Base.{
  ℕ, zero, suc, ◌+◌, ◌-◌, ◌*◌, ◌%◌, ◌^◌, ◌<◌, String, Bool, true, false, not, ◌&&◌, ◌||◌, Option,
  none, some, List, [], ◌∷◌, ◌++◌, map, ◌==◌, ◌⊕◌, Map, lookup, nat_eq, ltb, leb, split, to_lower,
  Error, plain, Result, ok, err, ◌>>=◌, if◌then◌else◌,
}

pub record PaginationRequest : Type 0 where
  pub page : ℕ
  pub page_size : ℕ

-- uint64(x) of an int32: the sign is extended
unfoldable pub to_uint64 : ℕ → ℕ
to_uint64 x = if ltb x (2 ^ 31) then x else x + (2 ^ 64 - 2 ^ 32)

-- NewRequest
unfoldable pub new_request : ℕ → ℕ → PaginationRequest
unfolding to_uint64
new_request page page_size = record {
  page = to_uint64 (if nat_eq page 0 then 1 else page);
  page_size = to_uint64 (if nat_eq page_size 0 then 15 else page_size);
}

-- Start
unfoldable pub start : Option ℕ → PaginationRequest
unfolding new_request
start none = new_request 1 15
start (some page_size) = new_request 1 page_size

-- Offset; `pr.Page - 1` wraps around at 0, and so does the product
unfoldable pub offset : PaginationRequest → ℕ
offset r = ((r.page + (2 ^ 64 - 1)) % 2 ^ 64 * r.page_size) % 2 ^ 64

-- Advance
unfoldable pub advance : PaginationRequest → PaginationRequest
advance r = record r { page = (r.page + 1) % 2 ^ 64 }

-- LIMIT and OFFSET of ApplyToSelect on a list of rows
unfoldable pub drop_rows {ℓ} : {A : Type ℓ} → ℕ → List A → List A
drop_rows n [] = []
drop_rows zero (x ∷ xs) = x ∷ xs
drop_rows (suc n) (x ∷ xs) = drop_rows n xs

unfoldable pub take_rows {ℓ} : {A : Type ℓ} → ℕ → List A → List A
take_rows n [] = []
take_rows zero (x ∷ xs) = []
take_rows (suc n) (x ∷ xs) = x ∷ take_rows n xs

unfoldable pub apply_to_select {ℓ} : {A : Type ℓ} → Option PaginationRequest → List A → List A
unfolding offset drop_rows take_rows
apply_to_select none rows = rows
apply_to_select (some r) rows = take_rows r.page_size (drop_rows (offset r) rows)

-- the pages from a request on, by `n` calls of Advance
unfoldable pub pages {ℓ} : {A : Type ℓ} → ℕ → PaginationRequest → List A → List A
unfolding apply_to_select advance
pages zero r rows = []
pages (suc n) r rows = apply_to_select (some r) rows ++ pages n (advance r) rows

pub record Order : Type 0 where
  pub property : String
  pub direction : String

-- the body of the loop of sort.New
unfoldable pub order_of_parts : String → List String → Result Order
unfolding to_lower
order_of_parts item (property ∷ direction ∷ []) =
    let lower = to_lower direction in
    if not (lower == "asc") && not (lower == "desc")
    then err (plain ("unknown sort '" ⊕ direction ⊕ "'"))
    else ok (record { property = property; direction = lower })
order_of_parts item _ = err (plain ("badly formatted sort: '" ⊕ item ⊕ "'"))

unfoldable pub parse_order : String → Result Order
unfolding order_of_parts split
parse_order item = order_of_parts item (split "," item)

unfoldable pub parse_orders : List String → Result (List Order)
unfolding parse_order
parse_orders [] = ok []
parse_orders (item ∷ items) =
    let rest = parse_orders items in
    elim (parse_order item) [
      | err e ↦ err e
      | ok o ↦ elim rest [ err e ↦ err e | ok os ↦ ok (o ∷ os) ]
    ]

-- sort.New of the properties alone
unfoldable pub new_criteria : String → Result (List Order)
unfolding parse_orders split
new_criteria text = if text == "" then ok [] else parse_orders (split ";" text)

-- getWorkspaceColumnsMap(true)
abbrev pub workspace_columns : Map String
workspace_columns =
    ("id", "id")
    ∷ ("labels", "labels")
    ∷ ("name", "name")
    ∷ ("uid", "uid")
    ∷ ("namespace", "namespace")
    ∷ ("phase", "phase")
    ∷ ("parameters", "parameters")
    ∷ ("createdAt", "created_at")
    ∷ ("modifiedAt", "modified_at")
    ∷ ("captureNode", "capture_node")
    ∷ []

abbrev pub null_sort : String → String
null_sort direction = if direction == "desc" then "NULLS LAST" else "NULLS FIRST"

-- the loop on the criteria in ListWorkspaces: an unknown property is left out
unfoldable pub order_by : List Order → List String
unfolding lookup
order_by [] = []
order_by (o ∷ os) =
    let rest = order_by os in
    elim (lookup o.property workspace_columns) [
      | none ↦ rest
      | some column ↦ ("w." ⊕ column ⊕ " " ⊕ o.direction ⊕ " " ⊕ null_sort o.direction) ∷ rest
    ]

-- the ORDER BY terms of ListWorkspaces
unfoldable pub list_order : List Order → List String
unfolding order_by
list_order [] = "w.created_at DESC" ∷ []
list_order (o ∷ os) = order_by (o ∷ os)

-- FormatColumnSelect, of an alias and a destination
unfoldable pub format_column : String → String → String → String
format_column alias destination column =
    let named = if alias == "" then column else alias ⊕ "." ⊕ column in
    if destination == "" then named else named ⊕ " \"" ⊕ destination ⊕ "." ⊕ column ⊕ "\""

unfoldable pub format_column_select : List String → String → String → List String
unfolding format_column
format_column_select columns alias destination = map (format_column alias destination) columns
