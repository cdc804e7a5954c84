-- ===== src/Spec/Limits.antt =====
-- crates/fractald-core/src/lib.rs: resource limits.
use fractal_d.Base.{ℕ, Bool, true, false, ◌&&◌, Option, none, some}

pub data LimitValue : Type 0 where
  max : LimitValue
  value : ℕ → LimitValue

pub record LimitRange : Type 0 where
  pub soft : LimitValue
  pub hard : LimitValue

pub record CpuQuota : Type 0 where
  pub quota_usec : ℕ
  pub period_usec : ℕ

pub record ResourceLimits : Type 0 where
  pub memory_max : Option LimitValue
  pub memory_high : Option LimitValue
  pub memory_min : Option LimitValue
  pub memory_low : Option LimitValue
  pub memory_swap_max : Option LimitValue
  pub cpu_weight : Option ℕ
  pub cpu_quota : Option CpuQuota
  pub io_weight : Option ℕ
  pub tasks_max : Option LimitValue

abbrev pub no_limits : ResourceLimits
no_limits = record {
  memory_max = none;
  memory_high = none;
  memory_min = none;
  memory_low = none;
  memory_swap_max = none;
  cpu_weight = none;
  cpu_quota = none;
  io_weight = none;
  tasks_max = none;
}

abbrev pub is_none {ℓ} : {A : Type ℓ} → Option A → Bool
is_none none = true
is_none (some a) = false

-- `ResourceLimits::is_empty`
pub has_no_limits : ResourceLimits → Bool
has_no_limits r =
    is_none r.memory_max
    && is_none r.memory_high
    && is_none r.memory_min
    && is_none r.memory_low
    && is_none r.memory_swap_max
    && is_none r.cpu_weight
    && is_none r.cpu_quota
    && is_none r.io_weight
    && is_none r.tasks_max
