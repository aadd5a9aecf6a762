-- ===== src/Workspace/Phase.antt =====
-- The phases of pkg/workspace_types.go and the columns that a change of phase writes.
use onepanel.Base.{ℕ, String, Bool, true, false, Option, none, some}
use onepanel.Params.{Parameter}
use onepanel.Base.{List, Map}

-- `WorkspacePhase` is a string: the named phases, the three phases of a finished workflow that the
-- workflow reports, and any other text.
pub data Phase : Type 0 where
  launching running updating pausing paused terminating terminated : Phase
  failed_to_pause failed_to_resume failed_to_terminate failed_to_launch failed_to_update : Phase
  succeeded failed error : Phase
  other : String → Phase

unfoldable pub is_terminated : Phase → Bool
is_terminated terminated = true
is_terminated _ = false

pub record WorkspaceStatus : Type 0 where
  pub phase : Phase
  pub started_at : Option ℕ
  pub paused_at : Option ℕ
  pub terminated_at : Option ℕ
  pub updated_at : Option ℕ

-- `&WorkspaceStatus{Phase: phase}`
abbrev pub status_of : Phase → WorkspaceStatus
status_of p = record {
  phase = p;
  started_at = none;
  paused_at = none;
  terminated_at = none;
  updated_at = none;
}

-- a row of `workspaces`; the JSON column `parameters` is kept decoded
pub record Row : Type 0 where
  pub id : ℕ
  pub namespace : String
  pub uid : String
  pub name : String
  pub status : WorkspaceStatus
  pub modified_at : Option ℕ
  pub parameters : List Parameter
  pub template_id : ℕ
  pub template_version : ℕ
  pub labels : Map String
  pub capture_node : Bool

-- A column of an UPDATE: not written, or written with a value; NULL is `none`.
pub data Write : Type 0 where
  keep : Write
  set : Option ℕ → Write

pub record FieldMap : Type 0 where
  pub phase : Phase
  pub modified_at : ℕ
  pub started_at : Write
  pub paused_at : Write
  pub updated_at : Write
  pub terminated_at : Write

abbrev null : Write
null = set none

fields_by_phase : Phase → ℕ → FieldMap → FieldMap
fields_by_phase launching now m = record m { started_at = set (some now); paused_at = null }
fields_by_phase pausing now m = record m { started_at = null; paused_at = set (some now) }
fields_by_phase updating now m = record m { paused_at = null; updated_at = set (some now) }
fields_by_phase terminating now m = record m {
  started_at = null;
  paused_at = null;
  terminated_at = set (some now);
}
fields_by_phase _ now m = m

-- workspaceStatusToFieldMap, at the time `now`
unfoldable pub workspace_status_to_field_map : WorkspaceStatus → ℕ → FieldMap
unfolding fields_by_phase
workspace_status_to_field_map status now = fields_by_phase status.phase now (record {
  phase = status.phase;
  modified_at = now;
  started_at = keep;
  paused_at = keep;
  updated_at = keep;
  terminated_at = keep;
})

abbrev pub written : Write → Option ℕ → Option ℕ
written keep old = old
written (set v) old = v

-- what the UPDATE of a field map does to a row
unfoldable pub apply_fields : FieldMap → Row → Row
apply_fields m r = record r {
  status = record {
    phase = m.phase;
    started_at = written m.started_at r.status.started_at;
    paused_at = written m.paused_at r.status.paused_at;
    terminated_at = written m.terminated_at r.status.terminated_at;
    updated_at = written m.updated_at r.status.updated_at;
  };
  modified_at = some m.modified_at;
}
