-- ===== src/Config/Reference.antt =====
-- What the configuration of a process is, as a function of the INI file alone, and that reading the
-- defaults (libinifile/rpc_conf_base.cpp) computes its first part.
use y_rpc.Common.{
  ℕ, ◌≡◌, refl, Bool, true, List, Option, none, some, ℤ, pos, negsuc, is_negative, if◌then◌else◌,
}
use y_rpc.Config.{
  DefaultGlobalConfig, ProcessConfig, Config, is_loaded, int_default, bool_default, time_default,
  version_default, read_default_configuration,
}
use y_rpc.Config.Ini.{IniFile}
use y_rpc.Config.Keys.{
  globalsection, defaultfixthreadskey, defaultdynthreadskey, defaultmaxworkqueuekey,
  defaultcycletimeoutkey, defaultconnecttimeoutkey, defaultinteractivetimeoutkey,
  defaulttimeoutenkey, defaultcyclecheckenkey, fixthreadskey, dynthreadskey, maxworkqueuekey,
  cycletimeoutkey, connecttimeoutkey, interactivetimeoutkey, timeoutenkey, cyclecheckenkey,
  ipaddresskey, listenportkey,
}
use y_rpc.Config.Units.{time_of, to_unsigned}

infixl 5 ◌>>=◌
abbrev pub ◌>>=◌ {ℓ κ} : {A : Type ℓ} {B : Type κ} → Option A → (A → Option B) → Option B
none >>= f = none
some a >>= f = f a

-- What a getter of the INI file found
abbrev pub found : {A : Type 0} → A × ℤ → Option A
found r = if is_negative r.1 then none else some r.0

abbrev pub found_or : {A : Type 0} → A × ℤ → A → A
found_or r default = if is_negative r.1 then default else r.0

-- A step of reading the defaults leaves the file and the last process.
abbrev pub Same : {File : Type 0} → Config File → Config File → Type 0
Same st st' =
    (st'.inifile ≡ st.inifile)
    × (st'.conf_file ≡ st.conf_file)
    × (st'.load_state ≡ st.load_state)
    × (st'.check_state ≡ st.check_state)
    × (st'.process_last ≡ st.process_last)
    × (st'.process_config_last ≡ st.process_config_last)

-- A result of the code and what the reference says of it: a failure writes neither the flag nor the
-- version.
abbrev pub Reads :
    {File : Type 0} → Config File → Option DefaultGlobalConfig → ℤ × Config File → Type 0
Reads st none r =
    (r.0 ≡ negsuc 0)
    × (r.1.get_default_conf_flag ≡ st.get_default_conf_flag)
    × (r.1.rpc_version ≡ st.rpc_version)
    × Same st r.1
Reads st (some d) r =
    (r.0 ≡ pos 0) × (r.1.get_default_conf_flag ≡ true) × (r.1.default_config ≡ d) × Same st r.1

module _ {File : Type 0} (ini : IniFile File) where
  -- The defaults of a file: all eight keys of its global section
  unfoldable pub defaults_of : File → Option DefaultGlobalConfig
  unfolding time_of
  defaults_of f = do
    fix_threads ← found (ini.get_int_value globalsection defaultfixthreadskey f)
    dyn_threads ← found (ini.get_int_value globalsection defaultdynthreadskey f)
    max_workqueue ← found (ini.get_int_value globalsection defaultmaxworkqueuekey f)
    cycle_timeout ← found (ini.get_string_value globalsection defaultcycletimeoutkey f)
    connect_timeout ← found (ini.get_string_value globalsection defaultconnecttimeoutkey f)
    interactive_timeout ← found (ini.get_string_value globalsection defaultinteractivetimeoutkey f)
    timeout_en ← found (ini.get_bool_value globalsection defaulttimeoutenkey f)
    cycle_check_en ← found (ini.get_bool_value globalsection defaultcyclecheckenkey f)
    some (record {
      default_fix_threads = fix_threads;
      default_dyn_threads = dyn_threads;
      default_max_workqueue = max_workqueue;
      default_cycle_timeout = time_of ini cycle_timeout;
      default_connect_timeout = time_of ini connect_timeout;
      default_interactive_timeout = time_of ini interactive_timeout;
      default_timeout_en = timeout_en;
      default_cycle_check_en = cycle_check_en;
    })

  abbrev timeout_or : List ℕ → List ℕ → ℤ → File → ℤ
  timeout_or p key default f =
      found_or ((time_of ini (ini.get_string_value p key f).0), (ini.get_string_value p key f).1)
        default

  -- The configuration of a process: its address and its port must be there, for the rest there are
  -- the defaults.
  unfoldable pub config_of : File → List ℕ → Option ProcessConfig
  unfolding time_of defaults_of
  config_of f p = do
    d ← defaults_of f
    ip_address ← found (ini.get_string_value p ipaddresskey f)
    listen_port ← found (ini.get_int_value p listenportkey f)
    some (record {
      fix_threads = found_or (ini.get_int_value p fixthreadskey f) d.default_fix_threads;
      dyn_threads = found_or (ini.get_int_value p dynthreadskey f) d.default_dyn_threads;
      max_workqueue = found_or (ini.get_int_value p maxworkqueuekey f) d.default_max_workqueue;
      cycle_timeout = timeout_or p cycletimeoutkey d.default_cycle_timeout f;
      connect_timeout = timeout_or p connecttimeoutkey d.default_connect_timeout f;
      interactive_timeout = timeout_or p interactivetimeoutkey d.default_interactive_timeout f;
      timeout_en = found_or (ini.get_bool_value p timeoutenkey f) d.default_timeout_en;
      cycle_check_en = found_or (ini.get_bool_value p cyclecheckenkey f) d.default_cycle_check_en;
      ip_address = ip_address;
      listen_port = to_unsigned listen_port;
    })

  Reads-step :
      {A : Type 0} (r : A × ℤ) (st : Config File) (d : DefaultGlobalConfig)
      (k : A → Option DefaultGlobalConfig) (rest : ℤ × Config File)
      → Reads st (k r.0) rest
      → Reads st
          (found r >>= k)
          (if is_negative r.1 then (negsuc 0, record st { default_config = d }) else rest)
  Reads-step (a, pos n) st d k rest ok = ok
  Reads-step (a, negsuc n) st d k rest ok = (refl, refl, refl, (refl, refl, refl, refl, refl, refl))

  -- The rest of the reading computes what the reference computes from the file and the defaults
  -- that are written so far.
  record Refines (rest : Config File → ℤ × Config File)
      (ref : File → DefaultGlobalConfig → Option DefaultGlobalConfig) : Type 0 where
    reads : (st : Config File) → Reads st (ref st.inifile st.default_config) (rest st)

  int_default-Refines :
      (key : List ℕ) (write : ℤ → DefaultGlobalConfig → DefaultGlobalConfig)
      {rest : Config File → ℤ × Config File}
      {ref : File → DefaultGlobalConfig → Option DefaultGlobalConfig}
      → Refines rest ref
      → Refines
          (int_default ini key write rest)
          (λ f d. found (ini.get_int_value globalsection key f) >>= λ v. ref f (write v d))
  int_default-Refines key write {rest = rest} {ref = ref} r = record {
    reads = λ st.
        let st' = record st {
          default_config =
              write (ini.get_int_value globalsection key st.inifile).0 st.default_config;
        } in
        Reads-step (ini.get_int_value globalsection key st.inifile) st
          (write (ini.get_int_value globalsection key st.inifile).0 st.default_config)
          (λ v. ref st.inifile (write v st.default_config)) (rest st') (r.reads st');
  }

  bool_default-Refines :
      (key : List ℕ) (write : Bool → DefaultGlobalConfig → DefaultGlobalConfig)
      {rest : Config File → ℤ × Config File}
      {ref : File → DefaultGlobalConfig → Option DefaultGlobalConfig}
      → Refines rest ref
      → Refines
          (bool_default ini key write rest)
          (λ f d. found (ini.get_bool_value globalsection key f) >>= λ v. ref f (write v d))
  bool_default-Refines key write {rest = rest} {ref = ref} r = record {
    reads = λ st.
        let st' = record st {
          default_config =
              write (ini.get_bool_value globalsection key st.inifile).0 st.default_config;
        } in
        Reads-step (ini.get_bool_value globalsection key st.inifile) st
          (write (ini.get_bool_value globalsection key st.inifile).0 st.default_config)
          (λ v. ref st.inifile (write v st.default_config)) (rest st') (r.reads st');
  }

  time_default-Refines :
      (key : List ℕ) (write : ℤ → DefaultGlobalConfig → DefaultGlobalConfig)
      {rest : Config File → ℤ × Config File}
      {ref : File → DefaultGlobalConfig → Option DefaultGlobalConfig}
      → Refines rest ref
      → Refines (time_default ini key write rest) (λ f d.
        found (ini.get_string_value globalsection key f) >>= λ v. ref f (write (time_of ini v) d))
  time_default-Refines key write {rest = rest} {ref = ref} r = record {
    reads = λ st.
        let st' = record st {
          default_config =
              write (time_of ini (ini.get_string_value globalsection key st.inifile).0)
                st.default_config;
        } in
        Reads-step (ini.get_string_value globalsection key st.inifile) st st.default_config
          (λ v. ref st.inifile (write (time_of ini v) st.default_config)) (rest st') (r.reads st');
  }

  version_default-Refines : Refines (version_default ini) (λ f d. some d)
  version_default-Refines = record {
    reads = λ st. (refl, refl, refl, (refl, refl, refl, refl, refl, refl));
  }

  -- With a file loaded, reading the defaults succeeds exactly if the file has all eight keys: then
  -- it keeps the reference defaults and sets the flag; else it returns -1 and leaves the flag and
  -- the version. The file and the last process stay either way.
  pub read_default_configuration-Reads :
      (st : Config File)
      → is_loaded st.load_state ≡ true
      → Reads st (defaults_of st.inifile) (read_default_configuration ini st)
  unfolding read_default_configuration defaults_of
  read_default_configuration-Reads st loaded = rw loaded (
      (int_default-Refines defaultfixthreadskey (λ v d. record d { default_fix_threads = v })
          (int_default-Refines defaultdynthreadskey (λ v d. record d { default_dyn_threads = v })
            (int_default-Refines defaultmaxworkqueuekey
              (λ v d. record d { default_max_workqueue = v })
              (time_default-Refines defaultcycletimeoutkey
                (λ v d. record d { default_cycle_timeout = v })
                (time_default-Refines defaultconnecttimeoutkey
                  (λ v d. record d { default_connect_timeout = v })
                  (time_default-Refines defaultinteractivetimeoutkey
                    (λ v d. record d { default_interactive_timeout = v })
                    (bool_default-Refines defaulttimeoutenkey
                      (λ v d. record d { default_timeout_en = v })
                      (bool_default-Refines defaultcyclecheckenkey
                        (λ v d. record d { default_cycle_check_en = v })
                        version_default-Refines)))))))).reads
        st)
