-- ===== src/Lib.antt =====
-- The core of Onepanel (Go), a platform that runs workflows and workspaces on Kubernetes. This library
-- models the parts of the client and the server that carry its own logic, and proves what they promise.
--
-- The parts and the files that model them, by the paths from the repository's root:
--   Base        the names that all modules share: tests, lists, Go's maps as association lists, `strings` on
--               native texts, Go's `error`, decimals, and the monad of a method (Base/State)
--   Params      pkg/common_types.go and mergeWorkspaceParameters of pkg/workspace.go
--   Labels      pkg/util/label/label.go, pkg/label_types.go, SkipKeysFromString of pkg/labels.go
--   Workspace   pkg/workspace.go, pkg/workspace_types.go, pkg/util/uid/uid.go and RetryLastWorkspaceAction of
--               server/workspace_server.go
--   Config      pkg/config_types.go and GetSystemConfig of pkg/config.go
--   Secrets     pkg/secret.go
--   Listing     pkg/util/request, pkg/util/sql/sql.go and the order of ListWorkspaces of pkg/workspace.go
--   Metrics     Metrics of pkg/types.go
--   Converter   server/converter/converter.go
--   Yaml        pkg/util/extensions/extensions.go
--   Auth        server/auth/auth.go and NewClient of pkg/client.go
--   Mapping     pkg/util/mapping/mapping.go and pkg/util/collection/collection.go
--   Template    pkg/workflow_template.go, pkg/workflow_template_types.go, NewUserErrorWrap of
--               pkg/util/error.go, ArchiveCronWorkflow of pkg/cron_workflow.go, ArchiveWorkflowExecution and
--               ListWorkflowExecutions of pkg/workflow_execution.go
--   WorkspaceTemplate
--               the rows of workspace templates of pkg/workspace_template.go, and InjectRuntimeParameters of
--               pkg/workspace_template_types.go
--   Spec        the generation of a workflow from a workspace's specification, of pkg/workspace_template.go
--   Execution   pkg/workflow_execution.go and PrependEnvVarToContainer of pkg/util/env/env.go
--
-- Workspaces. The state (World) is the table `workspaces` and the workflows that were submitted to Argo. Each
-- method of the client is a function of the monad of World: CreateWorkspace is create_workspace, StartWorkspace
-- start_workspace, updateWorkspace update_workspace with UpdateWorkspace, PauseWorkspace, ResumeWorkspace,
-- DeleteWorkspace and ArchiveWorkspace on it, UpdateWorkspaceStatus update_workspace_status. What a method
-- does before an error stays done. The record Env holds what its calls return: the clock, the failures of the
-- database, the templates, the runtime parameters and the submission. Machine has the requests of the server,
-- and Run the worlds that they lead to, each request with its own Env. A time is a number, and one method
-- reads the clock once. The JSON column of the parameters is kept decoded. Labels of a workspace are copied
-- from the request. A SELECT joins a workspace with its template and versions, of which no row is ever deleted;
-- the joins are taken to find one row of each, and their columns are no part of the row.
--
-- Authentication. Metadata is a function from a key to its values. The accesses of a request to the shared
-- configuration are the constructors of Step, and a schedule is a list of them, so that several requests can
-- be interleaved (Auth/Schedule). The cookie parser, MD5, Kubernetes' accounts, secrets and reviews are parameters.
--
-- Configuration and secrets. The cache of a client is an optional map, and nil maps are `none`. The API of
-- Kubernetes is an interface (SecretApi) with the behaviour of JSON patches, which a list implements in the
-- tests; keys are those that Kubernetes allows, so that a path of a patch needs no escape.
--
-- Lists. A page is a number below 2 ^ 64 with Go's wrap-around, and LIMIT and OFFSET act on the list of rows.
--
-- YAML. The nodes are cells of a heap with addresses, since the operations write through pointers.
--
-- Workflow templates. The state (Template/Store) is four tables and the objects of Argo. A method sees an Env:
-- the clock, whether each call fails, and the codecs. CreateWorkflowTemplate is Template.Create.create,
-- CreateWorkflowTemplateVersion create_workflow_template_version, GetWorkflowTemplate Template.Get.get and
-- ArchiveWorkflowTemplate archive_workflow_template. A transaction that is not committed gives back the rows
-- of templates and versions, while the objects of Argo stay as they are. Rows are inserted at the end, and
-- created_at has the order of the inserts. Get reads one row where the columns of two tables are joined.
-- Template/Latest has the invariant of the tables, Template/Run the sequences of requests. A version is
-- the clock's nanoseconds, a number of any size.
--
-- Workspace templates. Spec/Defs has the parameters that a template asks for and the claims of the stateful
-- set, Spec/Tasks the tasks of the DAG and the names of all templates, those of the workflow after the execution
-- included. The manifests that are printed as YAML are not texts here: a claim has
-- a name and a size, a task the actions under which it runs. WorkspaceTemplate/Store has two more tables beside
-- the state of the workflow templates, whose methods the methods here call: CreateWorkspaceTemplate is
-- WorkspaceTemplate.Create.create, GetWorkspaceTemplate get_workspace_template, UpdateWorkspaceTemplate
-- update_workspace_template and ArchiveWorkspaceTemplate archive_workspace_template. The columns of version
-- numbers are compared as integers. The archiving of workspaces, which has its own table, is a call here.
--
-- Workflow executions. Execution/Rows has the statements on the table `workflow_executions`, Execution/History
-- their sequences. Execution/Inject, Execution/Variables and Execution/Submitted have what createWorkflow does
-- to a workflow before it looks for accessible sidecars, Execution/Services and Execution/Access what it does
-- for these, with the encoder and the random names as parameters; the regular expressions of the placeholders are
-- matchers on ASCII texts. Execution/Filter has the filter of the manifest that is validated, and
-- Execution/Filtered what it makes of one.
--
-- Maps are lists of entries read through `lookup`, and the order of the list is the order of one `range`. A
-- run-time panic is the error `panic`. Logging has no part in the model, and where the text of an error
-- quotes a value that is no text, the quoted value is left out. Loops are by structural recursion, but for
-- the one of ArchiveWorkflowTemplate over the pages of executions, which has fuel: each round archives at least
-- one, so that fuel above the number of executions that are not archived is enough (Template/Ends).
--
-- Not modelled: the generated API, the migrations, the glue of Kubernetes and gRPC; the statistics and the
-- filters of lists; the printed texts of manifests; the
-- watching, logs, retries and resubmissions of executions, which pass calls on to Argo; the cron
-- workflows apart from their archiving.
pub mod Base
pub mod Params
pub mod Labels
pub mod Workspace
pub mod Config
pub mod Secrets
pub mod Listing
pub mod Metrics
pub mod Converter
pub mod Yaml
pub mod Auth
pub mod Mapping
pub mod Template
pub mod Spec
pub mod Execution
pub mod WorkspaceTemplate
