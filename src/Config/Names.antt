-- ===== src/Config/Names.antt =====
-- The names of restart modes and stop signals, in manager/src/ServiceConfig.cpp.
use improved_process_manager.Base.{◌≡◌, refl, some, ◌++◌, text, same_text}
use improved_process_manager.Config.{
  RestartMode, StopSignal, restart_byte, restart_mode_name, parse_restart_mode,
  restart_mode_from_byte, stop_signal_name, parse_stop_signal,
}

-- A restart mode is read back from its name, and from its byte.
parse_restart_mode-restart_mode_name :
    (mode : RestartMode)
    → (parse_restart_mode (restart_mode_name mode) ≡ some mode)
      × (restart_mode_from_byte (restart_byte mode) ≡ some mode)
unfolding parse_restart_mode restart_mode_name restart_mode_from_byte same_text
parse_restart_mode-restart_mode_name RestartMode.never = (refl, refl)
parse_restart_mode-restart_mode_name _ = (refl, refl)

-- A stop signal is read back from its name, with or without SIG in front.
pub parse_stop_signal-stop_signal_name :
    (signal : StopSignal)
    → (parse_stop_signal (stop_signal_name signal) ≡ some signal)
      × (parse_stop_signal (text "SIG" ++ stop_signal_name signal) ≡ some signal)
unfolding parse_stop_signal stop_signal_name same_text
parse_stop_signal-stop_signal_name StopSignal.terminate = (refl, refl)
parse_stop_signal-stop_signal_name _ = (refl, refl)
