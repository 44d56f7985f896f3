-- ===== src/Parser/Settings.antt =====
-- The data that the parser fills, in manager/include/ServiceConfig.hpp, and its defaults.
use improved_process_manager.Base.{
  ℕ, true, List, [], Option, none, some, if◌then◌else◌, Text, text, same_text,
}
use improved_process_manager.Config.{
  ServiceConfig, RestartMode, OutputMode, StopSignal, UnhealthyAction,
}

-- manager/include/Logger.hpp.
pub data LogLevel : Type 0 where
  error warning info debug : LogLevel

pub data CgroupMode : Type 0 where
  auto off required : CgroupMode

pub data GpuMode : Type 0 where
  auto off : GpuMode

pub record ManagerSettings : Type 0 where
  pub health_endpoint : Text
  pub report_endpoint : Text
  pub command_endpoint : Text
  pub publish_interval : ℕ
  pub log_level : LogLevel
  pub cgroups : CgroupMode
  pub gpu : GpuMode

pub record Config : Type 0 where
  pub path : Text
  pub manager : ManagerSettings
  pub services : List ServiceConfig

abbrev pub default_settings : ManagerSettings
default_settings = record {
  health_endpoint = text "tcp://*:6667";
  report_endpoint = text "tcp://*:6668";
  command_endpoint = text "tcp://*:5557";
  publish_interval = 1000;
  log_level = LogLevel.info;
  cgroups = CgroupMode.auto;
  gpu = GpuMode.auto;
}

abbrev pub default_service : ServiceConfig
default_service = record {
  name = [];
  description = [];
  binary = [];
  arguments = [];
  working_directory = [];
  environment = [];
  autostart = true;
  restart = RestartMode.on_failure;
  restart_delay = 1000;
  restart_delay_max = 30000;
  max_restarts = 5;
  restart_window = 60;
  start_grace = 1000;
  stop_signal = StopSignal.terminate;
  stop_timeout = 5000;
  heartbeat_interval = 0;
  heartbeat_tolerance = 3;
  unhealthy_action = UnhealthyAction.nothing;
  depends_on = [];
  output = OutputMode.auto;
  output_path = [];
  memory_max = 0;
  cpu_max_percent = 0;
}

-- manager/src/Logger.cpp.
unfoldable pub parse_log_level : Text → Option LogLevel
parse_log_level t =
    if same_text t (text "error")
    then some LogLevel.error
    else if same_text t (text "warning")
    then some LogLevel.warning
    else if same_text t (text "info")
    then some LogLevel.info
    else if same_text t (text "debug")
    then some LogLevel.debug
    else none
