-- ===== src/Config/Same.antt =====
-- About `SameServiceConfig`, in manager/src/ServiceConfig.cpp.
use improved_process_manager.Base.{
  ◌≡◌, ◌↔◌, refl, subst, arith, Bool, true, List, [], ◌∷◌, Text, same_text_iff, same_text_self,
  and_true, ==_iff,
}
use improved_process_manager.Config.{
  RestartMode, restart_byte, OutputMode, output_byte, StopSignal, signal_byte, UnhealthyAction,
  action_byte, EnvironmentVariable, ServiceConfig, same_variables, same_environment, same_texts,
  same_flag, same_service_config,
}

same_texts_iff : (a b : List Text) → (same_texts a b ≡ true) ↔ (a ≡ b)
unfolding same_texts
same_texts_iff [] [] = ground arith
same_texts_iff (x ∷ a) (y ∷ b) = ground (arith, same_texts_iff a b, same_text_iff x y)
same_texts_iff [] (y ∷ b) = ground arith
same_texts_iff (x ∷ a) [] = ground arith

same_variable : (x y : EnvironmentVariable) → x.name ≡ y.name → x.value ≡ y.value → x ≡ y
same_variable x y p q = ground arith

same_environment-eq : (a b : List EnvironmentVariable) → same_environment a b ≡ true → a ≡ b
unfolding same_environment same_variables
same_environment-eq [] [] h = refl
same_environment-eq (x ∷ a) (y ∷ b) h = ground (
  arith,
  same_environment-eq a b,
  same_text_iff x.name y.name,
  same_text_iff x.value y.value,
  same_variable x y,
)
same_environment-eq [] (y ∷ b) h = absurd (ground arith)
same_environment-eq (x ∷ a) [] h = absurd (ground arith)

same_environment_self : (a : List EnvironmentVariable) → same_environment a a ≡ true
unfolding same_environment same_variables
same_environment_self [] = refl
same_environment_self (x ∷ a) =
    ground (arith, same_environment_self a, same_text_self x.name, same_text_self x.value)

restart_byte-injective : (a b : RestartMode) → restart_byte a ≡ restart_byte b → a ≡ b
restart_byte-injective a b h = ground arith

output_byte-injective : (a b : OutputMode) → output_byte a ≡ output_byte b → a ≡ b
output_byte-injective a b h = ground arith

signal_byte-injective : (a b : StopSignal) → signal_byte a ≡ signal_byte b → a ≡ b
signal_byte-injective a b h = ground arith

action_byte-injective : (a b : UnhealthyAction) → action_byte a ≡ action_byte b → a ≡ b
action_byte-injective a b h = ground arith

same_flag_iff : (a b : Bool) → (same_flag a b ≡ true) ↔ (a ≡ b)
unfolding same_flag
same_flag_iff a b = ground arith

same_service_config-eq : (a b : ServiceConfig) → same_service_config a b ≡ true → a ≡ b
unfolding same_service_config
same_service_config-eq a b g0 =
    let (g1, t22) = and_true g0 in
    let (g2, t21) = and_true g1 in
    let (g3, t20) = and_true g2 in
    let (g4, t19) = and_true g3 in
    let (g5, t18) = and_true g4 in
    let (g6, t17) = and_true g5 in
    let (g7, t16) = and_true g6 in
    let (g8, t15) = and_true g7 in
    let (g9, t14) = and_true g8 in
    let (g10, t13) = and_true g9 in
    let (g11, t12) = and_true g10 in
    let (g12, t11) = and_true g11 in
    let (g13, t10) = and_true g12 in
    let (g14, t9) = and_true g13 in
    let (g15, t8) = and_true g14 in
    let (g16, t7) = and_true g15 in
    let (g17, t6) = and_true g16 in
    let (g18, t5) = and_true g17 in
    let (g19, t4) = and_true g18 in
    let (g20, t3) = and_true g19 in
    let (g21, t2) = and_true g20 in
    let (g22, t1) = and_true g21 in
    let p0 : a.name ≡ b.name = (same_text_iff a.name b.name).0 g22 in
    let p1 : a.description ≡ b.description = (same_text_iff a.description b.description).0 t1 in
    let p2 : a.binary ≡ b.binary = (same_text_iff a.binary b.binary).0 t2 in
    let p3 : a.arguments ≡ b.arguments = (same_texts_iff a.arguments b.arguments).0 t3 in
    let p4 : a.working_directory ≡ b.working_directory =
      (same_text_iff a.working_directory b.working_directory).0 t4 in
    let p5 : a.environment ≡ b.environment = same_environment-eq a.environment b.environment t5 in
    let p6 : a.autostart ≡ b.autostart = (same_flag_iff a.autostart b.autostart).0 t6 in
    let p7 : a.restart ≡ b.restart =
      restart_byte-injective a.restart b.restart
        ((==_iff (restart_byte a.restart) (restart_byte b.restart)).0 t7) in
    let p8 : a.restart_delay ≡ b.restart_delay = (==_iff a.restart_delay b.restart_delay).0 t8 in
    let p9 : a.restart_delay_max ≡ b.restart_delay_max =
      (==_iff a.restart_delay_max b.restart_delay_max).0 t9 in
    let p10 : a.max_restarts ≡ b.max_restarts = (==_iff a.max_restarts b.max_restarts).0 t10 in
    let p11 : a.restart_window ≡ b.restart_window =
      (==_iff a.restart_window b.restart_window).0 t11 in
    let p12 : a.start_grace ≡ b.start_grace = (==_iff a.start_grace b.start_grace).0 t12 in
    let p13 : a.stop_signal ≡ b.stop_signal =
      signal_byte-injective a.stop_signal b.stop_signal
        ((==_iff (signal_byte a.stop_signal) (signal_byte b.stop_signal)).0 t13) in
    let p14 : a.stop_timeout ≡ b.stop_timeout = (==_iff a.stop_timeout b.stop_timeout).0 t14 in
    let p15 : a.heartbeat_interval ≡ b.heartbeat_interval =
      (==_iff a.heartbeat_interval b.heartbeat_interval).0 t15 in
    let p16 : a.heartbeat_tolerance ≡ b.heartbeat_tolerance =
      (==_iff a.heartbeat_tolerance b.heartbeat_tolerance).0 t16 in
    let p17 : a.unhealthy_action ≡ b.unhealthy_action =
      action_byte-injective a.unhealthy_action b.unhealthy_action
        ((==_iff (action_byte a.unhealthy_action) (action_byte b.unhealthy_action)).0 t17) in
    let p18 : a.depends_on ≡ b.depends_on = (same_texts_iff a.depends_on b.depends_on).0 t18 in
    let p19 : a.output ≡ b.output =
      output_byte-injective a.output b.output
        ((==_iff (output_byte a.output) (output_byte b.output)).0 t19) in
    let p20 : a.output_path ≡ b.output_path = (same_text_iff a.output_path b.output_path).0 t20 in
    let p21 : a.memory_max ≡ b.memory_max = (==_iff a.memory_max b.memory_max).0 t21 in
    let p22 : a.cpu_max_percent ≡ b.cpu_max_percent =
      (==_iff a.cpu_max_percent b.cpu_max_percent).0 t22 in
    λ i. record {
      name = p0 i;
      description = p1 i;
      binary = p2 i;
      arguments = p3 i;
      working_directory = p4 i;
      environment = p5 i;
      autostart = p6 i;
      restart = p7 i;
      restart_delay = p8 i;
      restart_delay_max = p9 i;
      max_restarts = p10 i;
      restart_window = p11 i;
      start_grace = p12 i;
      stop_signal = p13 i;
      stop_timeout = p14 i;
      heartbeat_interval = p15 i;
      heartbeat_tolerance = p16 i;
      unhealthy_action = p17 i;
      depends_on = p18 i;
      output = p19 i;
      output_path = p20 i;
      memory_max = p21 i;
      cpu_max_percent = p22 i;
    }

same_service_config_self : (a : ServiceConfig) → same_service_config a a ≡ true
unfolding same_service_config
same_service_config_self a = ground (
  arith,
  same_text_self a.name,
  same_text_self a.description,
  same_text_self a.binary,
  (same_texts_iff a.arguments a.arguments).1 refl,
  same_text_self a.working_directory,
  same_environment_self a.environment,
  (same_flag_iff a.autostart a.autostart).1 refl,
  (same_texts_iff a.depends_on a.depends_on).1 refl,
  same_text_self a.output_path,
)

-- Two configurations of a service compare as the same exactly when they are equal, field by field.
pub same_service_config_iff : (a b : ServiceConfig) → (same_service_config a b ≡ true) ↔ (a ≡ b)
same_service_config_iff a b = (
  same_service_config-eq a b,
  λ e. subst (λ c. same_service_config a c ≡ true) e (same_service_config_self a),
)
