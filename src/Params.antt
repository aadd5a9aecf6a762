-- ===== src/Params.antt =====
-- pkg/common_types.go: the parameters of a manifest, their validation and their defaults; and the
-- merge of workspace parameters of pkg/workspace.go. A nil pointer is `none`.
pub mod Manifest
pub mod Merge
pub mod Tests
use onepanel.Base.{
  String, Bool, true, false, ◌&&◌, not, Option, none, some, List, [], ◌∷◌, ◌++◌, map, ◌==◌, Map,
  insert, Error, plain, Result, ok, err, ◌>>=◌, ◌>>◌, check, if◌then◌else◌, any,
}

pub record ParameterOption : Type 0 where
  pub name : String
  pub value : String

pub record Parameter : Type 0 where
  pub name : String
  pub value : Option String
  pub visibility : Option String
  pub type : String
  pub display_name : Option String
  pub hint : Option String
  pub options : Option (List ParameterOption)
  pub required : Bool

-- `Parameter{Name: name, Value: value}`
abbrev pub named : String → Option String → Parameter
named n v = record {
  name = n;
  value = v;
  visibility = none;
  type = "";
  display_name = none;
  hint = none;
  options = none;
  required = false;
}

abbrev pub invalid_visibility : Error
invalid_visibility = plain "invalid visibility"

unfoldable pub visibility_error : Option String → Option Error
visibility_error none = none
visibility_error (some v) =
    if not (v == "public")
      && not (v == "protected")
      && not (v == "internal")
      && not (v == "private")
    then some invalid_visibility
    else none

unfoldable pub is_valid_parameter : Parameter → Option Error
unfolding visibility_error
is_valid_parameter p = visibility_error p.visibility

unfoldable pub is_valid_parameters : List Parameter → Option Error
unfolding is_valid_parameter
is_valid_parameters [] = none
is_valid_parameters (p ∷ ps) =
    let rest = is_valid_parameters ps in
    elim (is_valid_parameter p) [ none ↦ rest | some e ↦ some e ]

abbrev pub or_public : Option String → Option String
or_public none = some "public"
or_public (some v) = some v

-- the body of the defaulting loop
unfoldable pub default_parameter : Parameter → Parameter
default_parameter p =
    let q = record p { visibility = or_public p.visibility } in
    if p.type == "select.nodepool"
    then record q { options = some []; value = some "default" }
    else q

-- The manifest decoder of gopkg.in/yaml.v2 is the parameter.
unfoldable pub parse_parameters_from_manifest :
    (String → Result (List Parameter)) → String → Result (List Parameter)
unfolding default_parameter is_valid_parameters
parse_parameters_from_manifest unmarshal manifest = do
  decoded ← unmarshal manifest
  let parameters = map default_parameter decoded
  check (is_valid_parameters parameters)
  ok parameters

map_from : Map Parameter → List Parameter → Map Parameter
map_from m [] = m
map_from m (p ∷ ps) = map_from (insert p.name p m) ps

unfoldable pub map_parameters_by_name : List Parameter → Map Parameter
unfolding map_from insert
map_parameters_by_name ps = map_from [] ps

-- `GetParameterValue` of pkg/workspace_types.go
unfoldable pub get_parameter_value : String → List Parameter → Option String
get_parameter_value k [] = none
get_parameter_value k (p ∷ ps) = if p.name == k then p.value else get_parameter_value k ps

abbrev pub has_name : String → List Parameter → Bool
has_name k = any (λ p. p.name == k)

-- the copies that the first loop appends
unfoldable pub copy : Parameter → Parameter
copy p = named p.name p.value

-- the second loop of the merge: `p.Value = newValue` writes to the loop's copy and is lost
unfoldable pub keep_missing : List Parameter → List Parameter → List Parameter
unfolding copy
keep_missing new [] = []
keep_missing new (p ∷ ps) =
    let rest = keep_missing new ps in if has_name p.name new then rest else copy p ∷ rest

-- `override` is not read
unfoldable pub merge_workspace_parameters : List Parameter → List Parameter → Bool → List Parameter
unfolding keep_missing copy
merge_workspace_parameters existing new override = map copy new ++ keep_missing new existing
