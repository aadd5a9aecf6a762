-- ===== src/Template/Tests.antt =====
-- Workflow templates at concrete values.
use onepanel.Base.{
  ℕ, ◌≡◌, ◌≢◌, refl, pos, none, some, List, [], ◌∷◌, ok, err, plain, arith, true, false, map,
}
use onepanel.Base
use onepanel.Mapping.{mapping, end, field, text}
use onepanel.Template.Store.{Store, TemplateRow, VersionRow, ExecutionRow, Template, Env}
use onepanel.Template.Archive
use onepanel.Template.Archive.{archive_executions, spent, finished}
use onepanel.Template.Latest.{WellFormed}
use onepanel.Template.Run.{
  Request, create, create_version, archive, get, serve_all, fresh, serve_all-fresh-WellFormed,
}
use onepanel.Template.Ends.{archive_executions_ends}

-- calls that all return, and a manifest whose argument section is absent
abbrev env : Env
env = record {
  now = 7;
  fails = λ c. none;
  decode = λ s. ok [];
  unmarshal = λ s. ok (field "arguments" (mapping end) end);
  marshal = λ v. ok "parameters: []";
  to_argo = λ s. ok (text s);
  lint = λ namespace s. none;
  pool_options = ok [];
}

abbrev template : Template
template = record {
  id = 0;
  uid = "";
  name = "Training";
  manifest = "arguments: {}";
  version = pos 0;
  version_id = 0;
  is_latest = false;
  is_archived = false;
  is_system = false;
  labels = [];
  parameters = [];
  description = "";
  resource = none;
  resource_uid = none;
  copy = none;
}

-- a template of one version, with two executions that are not archived
abbrev used : Store
used = record {
  templates =
      record {
        id = 1;
        uid = "training";
        name = "Training";
        namespace = "team";
        is_archived = false;
        is_system = false;
        labels = [];
      }
      ∷ [];
  versions =
      record {
        id = 1;
        template_id = 1;
        version = 7;
        is_latest = true;
        manifest = "";
        parameters = [];
        labels = [];
        description = "";
      }
      ∷ [];
  executions =
      record { uid = "a"; namespace = "team"; version_id = 1; is_archived = false }
      ∷ record { uid = "b"; namespace = "team"; version_id = 1; is_archived = false }
      ∷ record { uid = "c"; namespace = "team"; version_id = 1; is_archived = true }
      ∷ [];
  crons = [];
  template_serial = 2;
  version_serial = 2;
  copies = [];
  workflows = [];
  cron_workflows = [];
}

abbrev requests : List Request
requests =
    create env "team" template
    ∷ create_version (record env { now = 8 }) "team" (record template { id = 1; uid = "training" })
    ∷ get env "team" "training" (pos 0)
    ∷ archive 3 env "team" "training"
    ∷ []

serve_all-fresh-WellFormed_example : WellFormed (serve_all requests (fresh used))
serve_all-fresh-WellFormed_example = serve_all-fresh-WellFormed requests used

two_rounds : (archive_executions 3 env "team" "training" 7 used).0 ≡ ok finished
unfolding archive_executions Archive.hidden Archive.list_workflow_executions
    onepanel.Template.Store.attempt onepanel.Base.State.gets Archive.archive_page Archive.list_page
    Archive.newest_first onepanel.Base.State.each Archive.archive_workflow_execution
two_rounds = refl

archive_executions_ends_example : (archive_executions 3 env "team" "training" 7 used).0 ≢ ok spent
archive_executions_ends_example =
    archive_executions_ends 3 env "team" "training" 7 used
      ((λ h. refl), ((λ h. refl), ((λ h. refl), tt)))
      (unfold Archive.is_pending Archive.belongs Archive.is_of in omega arith)
