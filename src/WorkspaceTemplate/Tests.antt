-- ===== src/WorkspaceTemplate/Tests.antt =====
-- Workspace templates at concrete values.
use onepanel.Base.{ℕ, pos, ◌≡◌, refl, none, List, [], ◌∷◌, ok, false}
use onepanel.Mapping.{mapping, end, field, text}
use onepanel.Template.Store
use onepanel.Template.Run as TemplateRun
use onepanel.WorkspaceTemplate.Store.{WorkspaceTemplate, Env}
use onepanel.WorkspaceTemplate.Generate.{replace_all}
use onepanel.WorkspaceTemplate.Latest.{WellFormed}
use onepanel.WorkspaceTemplate.Run.{
  Request, create, get, update, update_manifest, archive, workflow, handle_all, empty,
  handle_all-empty-WellFormed,
}

-- calls that all return, at a time
abbrev inner : ℕ → Store.Env
inner now = record {
  now = now;
  fails = λ c. none;
  decode = λ s. ok [];
  unmarshal = λ s. ok (field "arguments" (mapping end) end);
  marshal = λ v. ok "parameters: []";
  to_argo = λ s. ok (text s);
  lint = λ namespace s. none;
  pool_options = ok (record { name = "Small"; value = "s" } ∷ []);
}

abbrev env : ℕ → Env
env now = record {
  inner = inner now;
  fails = λ c. none;
  config = ok [];
  validate = λ t. none;
  parse_spec = λ s. ok (record { arguments = none; containers = []; claim_templates = [] }, none);
  parse_item = λ s. ok s;
  print = λ spec claims tasks. ok "templates: []";
  decode_manifest = λ s. ok ([], s);
  encode_manifest = λ ps s. ok s;
  list_workspaces = λ namespace id. ok [];
  archive_workspace = λ namespace uid. none;
}

abbrev template : WorkspaceTemplate
template = record {
  id = 0;
  version_id = 0;
  uid = "";
  name = "Editor";
  namespace = "";
  description = "";
  manifest = "containers: []";
  version = pos 0;
  is_latest = false;
  is_archived = false;
  labels = [];
  workflow = none;
}

abbrev store : Store.Store
store = record {
  templates = [];
  versions = [];
  executions = [];
  crons = [];
  template_serial = 1;
  version_serial = 1;
  copies = [];
  workflows = [];
  cron_workflows = [];
}

abbrev requests : List Request
requests =
    create 1 (env 7) "team" template
    ∷ get (env 7) "team" "editor" (pos 0)
    ∷ update (env 8) "team" (record template { uid = "editor" })
    ∷ update_manifest (env 9) "team" "editor" "containers: [] "
    ∷ workflow (TemplateRun.get (inner 9) "team" "editor" (pos 0))
    ∷ archive 1 (env 10) "team" "editor"
    ∷ []

handle_all-empty-WellFormed_example : WellFormed (handle_all requests (empty store))
handle_all-empty-WellFormed_example = handle_all-empty-WellFormed requests store

replace_all_runs : replace_all "{{workflow." "{{workspace." "a {{workflow.x}}" ≡ "a {{workspace.x}}"
unfolding replace_all
replace_all_runs = refl
