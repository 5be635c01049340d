-- ===== src/Lake/Lookup.antt =====
-- The lookup of blocks by date (storage/utils/block.py) and `calculate_block_range` of the DAGs
-- (dags/eth_etl_dag.py, eth_etl_dag_k8s.py, eth_etl_dag_gke.py). A date is its number of days since
-- 1970, as strptime and strftime convert it; the two web services are parameters.
pub mod Days
use eth_project.Prelude.{
  ℕ, suc, ◌+◌, ◌-◌, ◌*◌, ◌/◌, ◌^◌, ◌≤◌, ◌≡◌, String, str_eq, Bool, true, false, ◌&&◌, Option, none,
  some, List, [], ◌∷◌, ltb, not, if◌then◌else◌, ℤ, sub_ℕ,
}

pub data Closest : Type 0 where
  after before : Closest

-- `str` of the two fields of a decoded response; `none` in place of a reply is any error of httpx.
pub record Reply : Type 0 where
  pub status : String
  pub result : String

abbrev pub day_length : ℕ
day_length = 86400

abbrev pub Service : Type 0
Service = ℕ → Closest → Option Reply

-- The time and the side that are asked for; `now` is in microseconds.
unfoldable pub block_query : ℕ → ℕ → Closest → ℕ × Closest
block_query now date closest =
    if ltb now (date * day_length * 10 ^ 6)
    then (now / 10 ^ 6, before)
    else (date * day_length, closest)

pub record Range : Type 0 where
  pub start : ℕ
  pub end_ : ℤ
  pub date : ℕ

module _ (read_number : String → Option ℕ) where
  -- `read_number` is `int` of a text of digits, and `none` where `isdigit` is false.
  unfoldable pub block_of_reply : Option Reply → Option ℕ
  block_of_reply none = none
  block_of_reply (some r) = if str_eq r.status "1" then read_number r.result else none

  -- The block, or `none` where the function raises.
  unfoldable pub get_block_number_by_date : Service → ℕ → ℕ → Closest → Option ℕ
  get_block_number_by_date service now date closest =
      let q = block_query now date closest in block_of_reply (service (q.0) (q.1))

  unfoldable pub range_of : Option ℕ → Option ℕ → ℕ → Option Range
  range_of none e date = none
  range_of (some s) none date = none
  range_of (some s) (some e) date = some (record { start = s; end_ = sub_ℕ e 1; date = date })

  -- The range of a date, from two lookups at the times `now` and `later`; an empty key fails the task.
  unfoldable pub block_range : Service → Option String → ℕ → ℕ → ℕ → Option Range
  block_range service none now later date = none
  block_range service (some key) now later date =
      if str_eq key ""
      then none
      else range_of (get_block_number_by_date service now date after)
          (get_block_number_by_date service later (suc date) after) date

  -- `calculate_block_range` of eth_etl_dag.py, of the cluster's DAG, which takes the day before, and of the GKE DAG.
  unfoldable pub calculate_block_range : Service → Option String → ℕ → ℕ → ℕ → Option Range
  calculate_block_range service key now later logical_date =
      block_range service key now later logical_date

  unfoldable pub calculate_block_range_k8s : Service → Option String → ℕ → ℕ → ℕ → Option Range
  calculate_block_range_k8s service key now later logical_date =
      block_range service key now later (logical_date - 1)

  unfoldable pub calculate_block_range_gke : Service → Option String → ℕ → ℕ → ℕ → Option Range
  calculate_block_range_gke service key now later logical_date =
      block_range service key now later logical_date

-- `get_block_date`: the day of a block's timestamp, from the node's reply; null or an error raises.
module _ (read_hex : String → Option ℕ) where
  unfoldable pub get_block_date : Option (Option String) → Option ℕ
  get_block_date none = none
  get_block_date (some none) = none
  get_block_date (some (some timestamp)) = elim (read_hex timestamp) [
    | none ↦ none
    | some t ↦ some (t / day_length)
  ]
