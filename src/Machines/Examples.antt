-- ===== src/Machines/Examples.antt =====
-- A projects file with one entry that is refused.
use worker_harness.Base.{[], ◌∷◌}
use worker_harness.Machines.{table, other, Document, entries, load_projects}
use worker_harness.Machines.Checked.{IsProject, load_projects-IsProject}
use worker_harness.Table.{All}

abbrev file : Document
file = entries (
    ("wh", table (("machine", "desktop") ∷ ("repo", "/home/me/wh/") ∷ ("remote", "me/wh") ∷ []))
    ∷ ("bad", table (("repo", "wh") ∷ []))
    ∷ ("odd", other)
    ∷ [])

load_projects-IsProject_example : All (λ e. IsProject e.0 e.1) (load_projects file)
load_projects-IsProject_example = (load_projects-IsProject file).0
