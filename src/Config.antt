-- ===== src/Config.antt =====
-- internal/config/config.go: the parameters that the parts share.
use immich_go_server.Prelude.{ℕ, ◌*◌, ℤ, pos}
use immich_go_server.Float64.{Float64}

pub record Config (F : Type 0) : Type 0 where
  pub min_replicas : ℤ
  pub hot_free_target : F
  pub warm_free_target : F
  pub cold_free_target : F
  pub hot_temp_thr : F
  pub cold_temp_thr : F
  pub safety_margin : F
  pub disk_min_free_ratio : F
  pub disk_min_free_bytes : ℤ
  pub migration_bytes_per_cycle : ℤ
  pub offline_suspect_days : ℤ
  pub max_clock_skew : ℤ
  pub migration_max_retry : ℤ
  pub pull_interval : ℤ
  pub temp_weights : F × F × F

abbrev gib : ℕ
gib = 1024 * 1024 * 1024

abbrev pub default : (fl : Float64) → Config fl.F
default fl = record {
  min_replicas = pos 2;
  hot_free_target = fl.decimal 40 2;
  warm_free_target = fl.decimal 20 2;
  cold_free_target = fl.decimal 5 2;
  hot_temp_thr = fl.decimal 80 2;
  cold_temp_thr = fl.decimal 40 2;
  safety_margin = fl.decimal 10 2;
  disk_min_free_ratio = fl.decimal 10 2;
  disk_min_free_bytes = pos (10 * gib);
  migration_bytes_per_cycle = pos (100 * gib);
  offline_suspect_days = pos 30;
  max_clock_skew = pos 300;
  migration_max_retry = pos 5;
  pull_interval = pos 60;
  temp_weights = (fl.decimal 4 1, fl.decimal 5 1, fl.decimal 1 1);
}
