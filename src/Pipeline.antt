-- ===== src/Pipeline.antt =====
-- The DAGs of the silver and the gold layer (dags/eth_silver_dag_*.py, dags/eth_gold_dag_*.py): their
-- tasks over the tables of the lake, and their runs as lists of attempts.
pub mod Tables
pub mod Silver
pub mod Cluster
pub mod Worker
pub mod Gold
