-- ===== src/Template/Run.antt =====
-- Sequences of requests on workflow templates, from empty tables.
use onepanel.Base.{ℕ, ℤ, String, List, [], ◌∷◌, arith}
use onepanel.Template.Store.{Store, Template, Env}
use onepanel.Template.Create
use onepanel.Template.Version
use onepanel.Template.Get
use onepanel.Template.Archive
use onepanel.Template.Archive.{Progress, spent, left_early, finished}
use onepanel.Template.Latest.{WellFormed}
use onepanel.Template.Invariant.{create-WellFormed}
use onepanel.Template.Preserve.{create_version-WellFormed}
use onepanel.Template.Archived.{archive-WellFormed, get_workflow_template-Keeps}

-- a request, each with what it sees of the outside
pub data Request : Type 0 where
  create : Env → String → Template → Request
  create_version : Env → String → Template → Request
  archive : ℕ → Env → String → String → Request
  get : Env → String → String → ℤ → Request

unfoldable pub serve : Request → Store → Store
serve (create env namespace m) s = (Create.create env namespace m s).1
serve (create_version env namespace m) s =
    (Version.create_workflow_template_version env namespace m s).1
serve (archive fuel env namespace uid) s =
    (Archive.archive_workflow_template fuel env namespace uid s).1
serve (get env namespace uid v) s = (Get.get_workflow_template env namespace uid v s).1

pub serve-WellFormed : (r : Request) (s : Store) → WellFormed s → WellFormed (serve r s)
unfolding serve
serve-WellFormed (create env namespace m) = create-WellFormed env namespace m
serve-WellFormed (create_version env namespace m) = create_version-WellFormed env namespace m
serve-WellFormed (archive fuel env namespace uid) = archive-WellFormed fuel env namespace uid
serve-WellFormed (get env namespace uid v) = get_workflow_template-Keeps env namespace uid v

unfoldable pub serve_all : List Request → Store → Store
unfolding serve
serve_all [] s = s
serve_all (r ∷ rs) s = serve_all rs (serve r s)

serve_all-WellFormed : (rs : List Request) (s : Store) → WellFormed s → WellFormed (serve_all rs s)
unfolding serve_all
serve_all-WellFormed [] s w = w
serve_all-WellFormed (r ∷ rs) s w = serve_all-WellFormed rs (serve r s) (serve-WellFormed r s w)

-- empty tables, whatever Argo holds
unfoldable pub fresh : Store → Store
fresh s = record s { templates = []; versions = []; template_serial = 1 }

-- From empty tables, after any sequence of requests that create a template or a version, archive a
-- template or read one, every template has exactly one latest version, and an id from 1 below the serial;
-- whichever calls of the database and of Argo fail in each request.
pub serve_all-fresh-WellFormed :
    (rs : List Request) (s : Store) → WellFormed (serve_all rs (fresh s))
serve_all-fresh-WellFormed rs s =
    serve_all-WellFormed rs (fresh s)
      (unfold fresh in record { serial = omega arith; latest = tt; below = tt })
