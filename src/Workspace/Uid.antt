-- ===== src/Workspace/Uid.antt =====
-- GenerateUID of pkg/util/uid/uid.go: every run of characters other than letters, digits and `-`
-- becomes one `-`, and the result is in lower case.
use Prim.Native.Char.{Char, code}
use Prim.Native.String.{len}
use onepanel.Base.{
  ℕ, String, Bool, true, false, ◌&&◌, ◌||◌, leb, ltb, nat_eq, Result, ok, err, plain, to_lower,
  if◌then◌else◌,
}

-- [a-zA-Z0-9-]
unfoldable pub is_kept : Char → Bool
is_kept c =
    (leb b'a' (code c) && leb (code c) b'z')
    || (leb b'A' (code c) && leb (code c) b'Z')
    || (leb b'0' (code c) && leb (code c) b'9')
    || nat_eq (code c) b'-'

abbrev dash : String → String
dash s = String.◌∷◌ "-" s

-- re.ReplaceAllString(input, `-`); the flag says that the character before is in a replaced run
unfoldable pub replace_runs : Bool → String → String
unfolding is_kept
replace_runs inside String.[] = String.[]
replace_runs inside (String.◌∷◌ c s) = elim (is_kept c) [
  | true ↦ String.◌∷◌ c (replace_runs false s)
  | false ↦ let rest = replace_runs true s in if inside then rest else dash rest
]

unfoldable pub generate_uid : String → ℕ → Result String
unfolding replace_runs to_lower
generate_uid input max =
    let clean_up = to_lower (replace_runs false input) in
    if ltb max (len clean_up) then err (plain "Length of string exceeds") else ok clean_up

-- GenerateWorkspaceUID of pkg/workspace_types.go
unfoldable pub generate_workspace_uid : String → Result String
unfolding generate_uid
generate_workspace_uid name = generate_uid name 30
