-- ===== src/Pipeline/Cluster/Progress.antt =====
-- A run ends: each attempt uses up one of the twelve that its tasks have, and a run that cannot go on has
-- published its asset or has lost a task.
use eth_project.Prelude.{ℕ, ◌+◌, ◌≤◌, ◌<◌, ◌≡◌, Bool, true, false, some}
use eth_project.Pipeline.Silver.{Sources}
use eth_project.Pipeline.Cluster.{
  Task, Done, Failed, txn_enriched, token_flow, whale_txns, publish, DagRun, failed_of, retries,
}

abbrev flag : Bool → ℕ
flag true = 1
flag false = 0

-- How many attempts the four tasks have had.
abbrev tried : Done → Failed → ℕ
tried s f =
    (flag s.txn_enriched + f.txn_enriched)
    + (flag s.token_flow + f.token_flow)
    + (flag s.whale_txns + f.whale_txns)
    + (flag s.published + f.publish)

-- No task has had more attempts than its retries allow.
record IsLimited (s : Done) (f : Failed) : Type 0 where
  enriched : flag s.txn_enriched + f.txn_enriched ≤ 3
  flow : flag s.token_flow + f.token_flow ≤ 3
  whales : flag s.whale_txns + f.whale_txns ≤ 3
  published : flag s.published + f.publish ≤ 3

-- A task that has failed for good.
abbrev pub IsLost : Failed → Task → Type 0
IsLost f t = retries < failed_of f t

module _ {Float : Type 0} (src : Sources Float) (d : ℕ) where
  abbrev HasAsset : DagRun Float → Type 0
  HasAsset run = run.done.published ≡ true → run.asset ≡ some d
