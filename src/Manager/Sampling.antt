-- ===== src/Manager/Sampling.antt =====
-- `Sample`, in manager/src/ServiceManager.cpp: the figures of every service before a report.
use improved_process_manager.Base.{
  ℕ, ◌+◌, ◌%◌, ◌^◌, Bool, true, false, not, ◌||◌, List, [], ◌∷◌, ◌++◌, Option, none, some, leb,
  ◌==◌, if◌then◌else◌, length, get_elem?, Text,
}
use improved_process_manager.Launcher.{Host}
use improved_process_manager.Manager.{ServiceManager, with_service, for_each}
use improved_process_manager.Service.Methods.{sample, member_pids, set_gpu_usage}
use improved_process_manager.Service.{Instant, Percent, Service}

-- What NVML says (manager/include/GpuMonitor.hpp). A double is its 64-bit pattern, and the map of the
-- processes a list of pairs.
pub record GpuDevice : Type 0 where
  pub index : ℕ
  pub name : Text
  pub uuid : Text
  pub utilization_percent : ℕ
  pub memory_utilization_percent : ℕ
  pub memory_total_bytes : ℕ
  pub memory_used_bytes : ℕ
  pub temperature_c : ℕ
  pub power_milliwatts : ℕ

pub record GpuProcessUsage : Type 0 where
  pub utilization_percent : ℕ
  pub memory_bytes : ℕ

pub record GpuSnapshot : Type 0 where
  pub available : Bool
  pub devices : List GpuDevice
  pub processes : List (ℕ × GpuProcessUsage)

unfoldable pub find_usage : List (ℕ × GpuProcessUsage) → ℕ → Option GpuProcessUsage
find_usage [] pid = none
find_usage ((key, usage) ∷ rest) pid = if key == pid then some usage else find_usage rest pid

-- `>= 0.0` on the pattern of a double: no sign up to infinity, or -0.0.
unfoldable pub is_not_negative : ℕ → Bool
is_not_negative pattern = leb pattern 0x7FF0_0000_0000_0000 || pattern == 2 ^ 63

-- What the loop over the members adds up.
pub record GpuUse : Type 0 where
  pub listed : Bool
  pub utilization_known : Bool
  pub percents : List ℕ
  pub memory : ℕ

abbrev pub no_use : GpuUse
no_use = record { listed = false; utilization_known = false; percents = []; memory = 0 }

-- The body of that loop, for what the map has of one process.
unfoldable pub add_use : Option GpuProcessUsage → GpuUse → GpuUse
add_use none u = u
add_use (some usage) u =
    let seen = record u { listed = true; memory = (u.memory + usage.memory_bytes) % 2 ^ 64 } in
    if is_not_negative usage.utilization_percent
    then record seen {
      utilization_known = true;
      percents = u.percents ++ usage.utilization_percent ∷ [];
    }
    else seen

unfoldable pub add_members : GpuSnapshot → List ℕ → GpuUse → GpuUse
add_members gpu [] u = u
add_members gpu (pid ∷ pids) u = add_members gpu pids (add_use (find_usage gpu.processes pid) u)

-- What `SetGpuUsage` is given.
pub record GpuFigures : Type 0 where
  pub valid : Bool
  pub percent : Percent
  pub memory : ℕ

abbrev no_figures : GpuFigures
no_figures = record { valid = false; percent = Percent.unknown; memory = 0 }

-- The figures of a service for its member processes.
unfoldable pub gpu_figures : GpuSnapshot → List ℕ → GpuFigures
gpu_figures gpu [] = no_figures
gpu_figures gpu (pid ∷ pids) =
    let u = add_members gpu (pid ∷ pids) no_use in
    if not gpu.available then no_figures else record {
      valid = true;
      percent =
          if not u.listed || u.utilization_known then Percent.sum u.percents else Percent.unknown;
      memory = u.memory;
    }

abbrev pub set_figures : GpuFigures → ℕ → ServiceManager → ServiceManager
set_figures f i m =
    with_service i (λ t. record t { service = set_gpu_usage f.valid f.percent f.memory t.service })
      m

module _ (host : Host) where
  -- The part of the body behind the sample.
  unfoldable pub sample_gpu : GpuSnapshot → ℕ → Option Service → ServiceManager → ServiceManager
  sample_gpu gpu i none m = m
  sample_gpu gpu i (some s) m =
      set_figures (gpu_figures gpu (member_pids host (record { service = s; trace = m.trace }))) i m

  unfoldable pub sample_one : GpuSnapshot → Instant → ℕ → ServiceManager → ServiceManager
  sample_one gpu now i m =
      let sampled = with_service i (sample host now) m in
      sample_gpu gpu i (get_elem? sampled.services i) sampled

  unfoldable pub sample_manager : Instant → GpuSnapshot → ServiceManager → ServiceManager
  sample_manager now gpu m = for_each (length m.services) 0 (sample_one gpu now) m
