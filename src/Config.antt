-- ===== src/Config.antt =====
-- libinifile/rpc_conf.h, rpc_conf_base.h and rpc_conf_base.cpp: the class RPCConfigBase, which
-- reads the configuration of the processes from an INI file and keeps the last process and the
-- defaults. A parameter that the code fills is an argument and a part of the result. The numbers of
-- an object that was not written yet are whatever memory held: they are arguments of `new_config`.
pub mod Ini
pub mod Units
pub mod Keys
pub mod Check
pub mod Reference
pub mod Cache
pub mod Validity
pub mod Profile
use y_rpc.Common.{
  ℕ, Bool, true, false, not, ◌&&◌, List, [], ◌∷◌, drop, ℤ, pos, negsuc, is_negative, is_zero,
  bytes_of, string_eq, if◌then◌else◌,
}
use y_rpc.Config.Ini.{IniFile}
use y_rpc.Config.Keys.*
use y_rpc.Config.Units.{contains, to_unsigned, time_of}

pub data LoadState : Type 0 where
  load_init load_success load_failed : LoadState

pub data CheckState : Type 0 where
  check_init check_success check_failed : CheckState

pub record DefaultGlobalConfig : Type 0 where
  pub default_fix_threads : ℤ
  pub default_dyn_threads : ℤ
  pub default_max_workqueue : ℤ
  pub default_cycle_timeout : ℤ
  pub default_connect_timeout : ℤ
  pub default_interactive_timeout : ℤ
  pub default_timeout_en : Bool
  pub default_cycle_check_en : Bool

pub record ProcessConfig : Type 0 where
  pub fix_threads : ℤ
  pub dyn_threads : ℤ
  pub max_workqueue : ℤ
  pub cycle_timeout : ℤ
  pub connect_timeout : ℤ
  pub interactive_timeout : ℤ
  pub timeout_en : Bool
  pub cycle_check_en : Bool
  pub ip_address : List ℕ
  pub listen_port : ℕ

pub record Config (File : Type 0) : Type 0 where
  pub inifile : File
  pub conf_file : List ℕ
  pub rpc_version : List ℕ
  pub process_last : List ℕ
  pub get_default_conf_flag : Bool
  pub load_state : LoadState
  pub check_state : CheckState
  pub process_config_last : ProcessConfig
  pub default_config : DefaultGlobalConfig

abbrev pub is_loaded : LoadState → Bool
is_loaded load_success = true
is_loaded other = false

abbrev pub has_failed : LoadState → Bool
has_failed load_failed = true
has_failed other = false

abbrev pub is_checked : CheckState → Bool
is_checked check_success = true
is_checked other = false

abbrev pub is_empty : List ℕ → Bool
is_empty [] = true
is_empty (c ∷ cs) = false

unfoldable pub new_config :
    {File : Type 0} → File → ProcessConfig → DefaultGlobalConfig → Config File
new_config file process_config default_config = record {
  inifile = file;
  conf_file = [];
  rpc_version = [];
  process_last = [];
  get_default_conf_flag = false;
  load_state = load_init;
  check_state = check_init;
  process_config_last = process_config;
  default_config = default_config;
}

module _ {File : Type 0} (ini : IniFile File) where
  -- The load of setConfigProfile, behind its tests
  unfoldable pub load_profile : List ℕ → Config File → ℤ × Config File
  load_profile path st =
      let loaded = ini.load path st.inifile in
      if is_zero loaded.1
      then (
        pos 0,
        record st {
          conf_file = path;
          check_state = check_init;
          inifile = loaded.0;
          load_state = load_success;
        },
      )
      else (
        negsuc 0,
        record st {
          conf_file = path;
          check_state = check_init;
          inifile = loaded.0;
          load_state = load_failed;
        },
      )

  unfoldable pub set_config_profile : List ℕ → Config File → ℤ × Config File
  unfolding load_profile
  set_config_profile path st =
      if is_empty path
      then (negsuc 0, st)
      else (if is_loaded st.load_state && string_eq path st.conf_file
          then (pos 0, st)
          else (if has_failed st.load_state && string_eq path st.conf_file
              then (negsuc 0, st)
              else load_profile path st))

  unfoldable pub get_process_from_module : List ℕ → List ℕ → Config File → ℤ × List ℕ
  get_process_from_module process module_name st =
      let found = ini.get_value modulesection module_name st.inifile in
      if is_zero found.1 then (pos 0, found.0) else (negsuc 0, found.0)

  -- A `getIntValue` of a default: the field is written, and a missing key ends the function.
  abbrev pub int_default :
      List ℕ
      → (ℤ → DefaultGlobalConfig → DefaultGlobalConfig)
      → (Config File → ℤ × Config File)
      → Config File
      → ℤ × Config File
  int_default key write rest st =
      let found = ini.get_int_value globalsection key st.inifile in
      let st' = record st { default_config = write found.0 st.default_config } in
      if is_negative found.1 then (negsuc 0, st') else rest st'

  abbrev pub bool_default :
      List ℕ
      → (Bool → DefaultGlobalConfig → DefaultGlobalConfig)
      → (Config File → ℤ × Config File)
      → Config File
      → ℤ × Config File
  bool_default key write rest st =
      let found = ini.get_bool_value globalsection key st.inifile in
      let st' = record st { default_config = write found.0 st.default_config } in
      if is_negative found.1 then (negsuc 0, st') else rest st'

  -- A timeout is written only if its key is there.
  abbrev pub time_default :
      List ℕ
      → (ℤ → DefaultGlobalConfig → DefaultGlobalConfig)
      → (Config File → ℤ × Config File)
      → Config File
      → ℤ × Config File
  time_default key write rest st =
      let found = ini.get_string_value globalsection key st.inifile in
      if is_negative found.1
      then (negsuc 0, st)
      else rest (record st { default_config = write (time_of ini found.0) st.default_config })

  -- The end of getDefaultConfiguration: the version may be missing.
  abbrev pub version_default : Config File → ℤ × Config File
  version_default st =
      let found = ini.get_string_value globalsection rpcversionkey st.inifile in
      (
        pos 0,
        record st {
          rpc_version = if is_negative found.1 then bytes_of "NULL" else found.0;
          get_default_conf_flag = true;
        },
      )

  -- getDefaultConfiguration(void)
  unfoldable pub read_default_configuration : Config File → ℤ × Config File
  unfolding time_of
  read_default_configuration st =
      if is_loaded st.load_state
      then int_default defaultfixthreadskey (λ v d. record d { default_fix_threads = v })
          (int_default defaultdynthreadskey (λ v d. record d { default_dyn_threads = v })
            (int_default defaultmaxworkqueuekey (λ v d. record d { default_max_workqueue = v })
              (time_default defaultcycletimeoutkey (λ v d. record d { default_cycle_timeout = v })
                (time_default defaultconnecttimeoutkey
                  (λ v d. record d { default_connect_timeout = v })
                  (time_default defaultinteractivetimeoutkey
                    (λ v d. record d { default_interactive_timeout = v })
                    (bool_default defaulttimeoutenkey (λ v d. record d { default_timeout_en = v })
                      (bool_default defaultcyclecheckenkey
                        (λ v d. record d { default_cycle_check_en = v }) version_default)))))))
          st
      else (negsuc 0, st)

  -- `if(false == m_get_default_conf_flag) getDefaultConfiguration()`
  unfoldable pub need_default_configuration : Config File → ℤ × Config File
  need_default_configuration st =
      if st.get_default_conf_flag then (pos 0, st) else read_default_configuration st

  -- getDefaultConfiguration(DefaultGlobalConfig &)
  unfoldable pub get_default_configuration :
      DefaultGlobalConfig → Config File → ℤ × DefaultGlobalConfig × Config File
  unfolding need_default_configuration
  get_default_configuration default_config st =
      let needed = need_default_configuration st in
      if is_negative needed.0
      then (negsuc 0, default_config, needed.1)
      else (pos 0, needed.1.default_config, needed.1)

  unfoldable pub get_process_net_config : List ℕ → ProcessConfig → Config File → ℤ × ProcessConfig
  get_process_net_config process process_config st =
      let address = ini.get_string_value process ipaddresskey st.inifile in
      let port = ini.get_int_value process listenportkey st.inifile in
      if is_loaded st.load_state
      then (if is_negative address.1
          then (negsuc 0, record process_config { ip_address = address.0 })
          else (
            if is_negative port.1 then negsuc 0 else pos 0,
            record process_config { ip_address = address.0; listen_port = to_unsigned port.0 },
          ))
      else (negsuc 0, process_config)

  -- A value of the process, or the default if its section does not have the key
  abbrev pub int_or : List ℕ → List ℕ → ℤ → File → ℤ
  int_or process key default f =
      let found = ini.get_int_value process key f in
      if is_negative found.1 then default else found.0

  abbrev pub bool_or : List ℕ → List ℕ → Bool → File → Bool
  bool_or process key default f =
      let found = ini.get_bool_value process key f in
      if is_negative found.1 then default else found.0

  abbrev pub time_or : List ℕ → List ℕ → ℤ → File → ℤ
  time_or process key default f =
      let found = ini.get_string_value process key f in
      if is_negative found.1 then default else time_of ini found.0

  -- "get general config"
  unfoldable pub general_config :
      List ℕ → DefaultGlobalConfig → ProcessConfig → File → ProcessConfig
  unfolding time_of
  general_config process d process_config f = record process_config {
    fix_threads = int_or process fixthreadskey d.default_fix_threads f;
    dyn_threads = int_or process dynthreadskey d.default_dyn_threads f;
    max_workqueue = int_or process maxworkqueuekey d.default_max_workqueue f;
    cycle_timeout = time_or process cycletimeoutkey d.default_cycle_timeout f;
    connect_timeout = time_or process connecttimeoutkey d.default_connect_timeout f;
    interactive_timeout = time_or process interactivetimeoutkey d.default_interactive_timeout f;
    timeout_en = bool_or process timeoutenkey d.default_timeout_en f;
    cycle_check_en = bool_or process cyclecheckenkey d.default_cycle_check_en f;
  }

  -- The result of the net configuration, which is kept if it is 0
  unfoldable pub keep_config :
      List ℕ → ℤ × ProcessConfig → Config File → ℤ × ProcessConfig × Config File
  keep_config process got st = (
    got.0,
    got.1,
    if is_zero got.0 then record st { process_last = process; process_config_last = got.1 } else st,
  )

  unfoldable pub get_process_config :
      List ℕ → ProcessConfig → Config File → ℤ × ProcessConfig × Config File
  unfolding need_default_configuration general_config get_process_net_config keep_config
  get_process_config process process_config st =
      let needed = need_default_configuration st in
      if is_loaded st.load_state
      then (if string_eq st.process_last process
          then (pos 0, st.process_config_last, st)
          else (if is_negative needed.0
              then (negsuc 0, process_config, needed.1)
              else keep_config process
                  (get_process_net_config process
                    (general_config process needed.1.default_config process_config needed.1.inifile)
                    needed.1)
                  needed.1))
      else (negsuc 0, process_config, st)

  unfoldable pub get_rpc_version : Config File → List ℕ × Config File
  unfolding need_default_configuration
  get_rpc_version st =
      let needed = need_default_configuration st in
      if is_negative needed.0 then (bytes_of "NULL", needed.1) else (needed.1.rpc_version, needed.1)

  unfoldable pub set_rpc_version : List ℕ → Config File → ℤ × Config File
  unfolding need_default_configuration
  set_rpc_version version st =
      let needed = need_default_configuration st in
      let file = ini.set_value globalsection rpcversionkey version needed.1.inifile in
      if is_negative needed.0
      then (negsuc 0, needed.1)
      else (if string_eq version needed.1.rpc_version
          then (negsuc 0, needed.1)
          else (ini.save file, record needed.1 { rpc_version = version; inifile = file }))
