-- ===== src/Workspace/Run.antt =====
-- Runs of requests, each with its own environment, authorization and namespace.
use onepanel.Base.{arith, String, Bool, Result, []}
use onepanel.Workspace.World.{World, Env}
use onepanel.Workspace.Machine.{Request, serve}
use onepanel.Workspace.Serve.{IsReport}
use onepanel.Workspace.Rows.{Extends, Keeps, Extends-refl, Extends-trans}
use onepanel.Workspace.Invariant.{WellFormed, IsFresh, serve-WellFormed, serve-Extends}

-- the worlds that requests lead to
pub data Reach (w : World) : World → Type 0 where
  here : Reach w w
  next :
      {v : World} (is_authorized : String → Result Bool) (env : Env) (namespace : String)
      (q : Request)
      → Reach w v
      → IsReport q
      → IsFresh env.new_id v.rows
      → Reach w (serve is_authorized env namespace q v).1

abbrev pub empty : World
empty = record { rows = []; executions = [] }

pub empty-WellFormed : WellFormed empty.rows
unfolding onepanel.Workspace.Table.rows_affected
empty-WellFormed = record { unique_ids = tt; one_live = λ n u. omega arith; unpaused = tt }

Reach-WellFormed : {w v : World} → Reach w v → WellFormed w.rows → WellFormed v.rows
Reach-WellFormed here h = h
Reach-WellFormed (next {v = u} a env n q r i f) h =
    serve-WellFormed a env n u q i f (Reach-WellFormed r h)

-- In every table that requests lead to from the empty one, the ids are distinct, a namespace has at
-- most one workspace of a uid that is not terminated, and no workspace in its launch has a time of a
-- pause. The requests report no phase `Failed to launch`, and the ids of new rows are new.
pub Reach-empty-WellFormed : {v : World} → Reach empty v → WellFormed v.rows
Reach-empty-WellFormed r = Reach-WellFormed r empty-WellFormed

-- From a well-formed table, no run of such requests deletes a row, changes which workspace it stands
-- for, or changes anything in a terminated one.
pub Reach-Extends : {w v : World} → WellFormed w.rows → Reach w v → Extends Keeps w.rows v.rows
Reach-Extends {w} h here = Extends-refl w.rows
Reach-Extends {w} h (next {v = u} a env n q r i f) =
    Extends-trans w.rows u.rows _ (Reach-Extends h r)
      (serve-Extends a env n u q i (Reach-WellFormed r h))
