-- ===== src/Config/Cache.antt =====
-- libinifile/rpc_conf_base.cpp: what getProcessConfig keeps, the defaults and the last process,
-- against the reference of the file.
use y_rpc.Common.{
  ℕ, zero, suc, ◌≡◌, refl, sym, ap, ◌∙◌, true, false, List, Option, none, some, ℤ, pos, negsuc,
  is_zero, is_negative, if◌then◌else◌, by_if, string_eq, string_eq→eq,
}
use y_rpc.Config.{
  DefaultGlobalConfig, ProcessConfig, Config, is_loaded, is_empty, need_default_configuration,
  general_config, get_process_net_config, keep_config, get_process_config,
}
use y_rpc.Config.Ini.{IniFile}
use y_rpc.Config.Reference.{
  found, ◌>>=◌, Same, Reads, defaults_of, config_of, read_default_configuration-Reads,
}
use y_rpc.Config.Keys.{ipaddresskey, listenportkey}
use y_rpc.Config.Units.{to_unsigned}

-- The configuration that a call returned, if it succeeded
abbrev pub config_result : {File : Type 0} → ℤ × ProcessConfig × Config File → Option ProcessConfig
config_result r = if is_zero r.0 then some r.1 else none

abbrev net_result : ℤ × ProcessConfig → Option ProcessConfig
net_result r = if is_zero r.0 then some r.1 else none

module _ {File : Type 0} (ini : IniFile File) where
  -- What an object keeps is what its file says.
  pub record Cached (st : Config File) : Type 0 where
    pub defaults_known :
        st.get_default_conf_flag ≡ true → defaults_of ini st.inifile ≡ some st.default_config
    pub last_known :
        is_empty st.process_last ≡ false
        → config_of ini st.inifile st.process_last ≡ some st.process_config_last

  Cached-Same :
      (st st' : Config File)
      → Cached st
      → Same st st'
      → (st'.get_default_conf_flag ≡ true → defaults_of ini st'.inifile ≡ some st'.default_config)
      → Cached st'
  Cached-Same st st' c (file, path, state, check, last, config) defaults = record {
    defaults_known = defaults;
    last_known = λ h. let known = c.last_known (ap is_empty (sym last) ∙ h) in cc;
  }

  -- What is known once the defaults were needed
  Needs : Config File → Option DefaultGlobalConfig → ℤ × Config File → Type 0
  Needs st none r = (is_negative r.0 ≡ true) × Cached r.1 × Same st r.1
  Needs st (some d) r =
      (is_negative r.0 ≡ false) × (r.1.default_config ≡ d) × Cached r.1 × Same st r.1

  Cached-Reads :
      (st : Config File) (o : Option DefaultGlobalConfig) (r : ℤ × Config File)
      → Cached st
      → st.get_default_conf_flag ≡ false
      → defaults_of ini st.inifile ≡ o
      → Reads st o r
      → Needs st o r
  unfolding Needs
  Cached-Reads st none r c unread e (code, flag, version, same) =
      (ap is_negative code, Cached-Same st r.1 c same (λ h. cc), same)
  Cached-Reads st (some d) r c unread e (code, flag, known, same) =
      (ap is_negative code, known, Cached-Same st r.1 c same (λ h. let f = same.0 in cc), same)

  need_default_configuration-Needs :
      (st : Config File)
      → is_loaded st.load_state ≡ true
      → Cached st
      → Needs st (defaults_of ini st.inifile) (need_default_configuration ini st)
  unfolding need_default_configuration Needs
  need_default_configuration-Needs st loaded c =
      by_if (Needs st (defaults_of ini st.inifile)) st.get_default_conf_flag
        (λ read. rw (c.defaults_known read) (refl, refl, c, (refl, refl, refl, refl, refl, refl)))
        (λ unread.
          Cached-Reads st _ _ c unread refl (read_default_configuration-Reads ini st loaded))

  -- The result, what the reference says, and the object after the call
  unfoldable pub Gives :
      Config File → Option ProcessConfig → ℤ × ProcessConfig × Config File → Type 0
  Gives st o r =
      (config_result r ≡ o)
      × Cached r.2
      × (r.2.inifile ≡ st.inifile)
      × (r.2.load_state ≡ st.load_state)

  net_result-if :
      (address : List ℕ × ℤ) (port : ℤ × ℤ) (failed : ProcessConfig)
      (filled : List ℕ → ℕ → ProcessConfig)
      → net_result (
          if is_negative address.1 then (negsuc 0, failed) else (
            if is_negative port.1 then negsuc 0 else pos 0,
            filled address.0 (to_unsigned port.0),
          ))
        ≡ (found address >>= λ ip. found port >>= λ port. some (filled ip (to_unsigned port)))
  net_result-if (a, negsuc n) port failed filled = refl
  net_result-if (a, pos n) (b, negsuc m) failed filled = refl
  net_result-if (a, pos n) (b, pos m) failed filled = refl

  net_result-get_process_net_config :
      (p : List ℕ) (c : ProcessConfig) (st : Config File)
      → is_loaded st.load_state ≡ true
      → defaults_of ini st.inifile ≡ some st.default_config
      → net_result
          (get_process_net_config ini p (general_config ini p st.default_config c st.inifile) st)
        ≡ config_of ini st.inifile p
  unfolding get_process_net_config general_config config_of
  net_result-get_process_net_config p c st loaded known =
      let filled : List ℕ → ℕ → ProcessConfig = λ ip port.
        record (general_config ini p st.default_config c st.inifile) {
          ip_address = ip;
          listen_port = port;
        } in
      rw (loaded, known)
        (net_result-if (ini.get_string_value p ipaddresskey st.inifile)
          (ini.get_int_value p listenportkey st.inifile) _ filled)

  keep_config-Gives :
      (p : List ℕ) (r : ℤ × ProcessConfig) (st : Config File)
      → Cached st
      → net_result r ≡ config_of ini st.inifile p
      → Gives st (config_of ini st.inifile p) (keep_config ini p r st)
  unfolding keep_config Gives
  keep_config-Gives p (pos zero, c) st cached got = (
    got,
    record { defaults_known = cached.defaults_known; last_known = λ h. sym got },
    refl,
    refl,
  )
  keep_config-Gives p (pos (suc n), c) st cached got = (got, cached, refl, refl)
  keep_config-Gives p (negsuc n, c) st cached got = (got, cached, refl, refl)

  last_config-Gives :
      (p : List ℕ) (st : Config File)
      → Cached st
      → is_empty p ≡ false
      → string_eq st.process_last p ≡ true
      → Gives st (config_of ini st.inifile p) (pos 0, st.process_config_last, st)
  unfolding Gives
  last_config-Gives p st cached named same =
      let last = string_eq→eq st.process_last p same in
      let known = cached.last_known (ap is_empty last ∙ named) in
      (sym known ∙ ap (config_of ini st.inifile) last, cached, refl, refl)

  needed-Gives :
      (p : List ℕ) (c : ProcessConfig) (st : Config File) (o : Option DefaultGlobalConfig)
      (needed : ℤ × Config File)
      → is_loaded st.load_state ≡ true
      → defaults_of ini st.inifile ≡ o
      → Needs st o needed
      → Gives st (config_of ini st.inifile p) (
          if is_negative needed.0
          then (negsuc 0, c, needed.1)
          else keep_config ini p
              (get_process_net_config ini p
                (general_config ini p needed.1.default_config c needed.1.inifile)
                needed.1)
              needed.1)
  unfolding Needs Gives config_of
  needed-Gives p c st none needed loaded e (code, cached, same) =
      rw (code, e) (refl, cached, same.0, same.2)
  needed-Gives p c st (some d) needed loaded e (code, known, cached, same) =
      let e' = ap (defaults_of ini) same.0 ∙ e ∙ ap some (sym known) in
      let got =
        keep_config-Gives p _ needed.1 cached
          (net_result-get_process_net_config p c needed.1 (ap is_loaded same.2 ∙ loaded) e') in
      rw code (got.0 ∙ ap (λ f. config_of ini f p) same.0, got.1, got.2 ∙ same.0, got.3 ∙ same.2)

  -- In an object with a loaded file that keeps what its file says, getProcessConfig of a named
  -- process succeeds exactly if the reference has a configuration, and returns that one, whether it
  -- comes from the file or from what is kept. The object keeps what its file says, and its file.
  pub get_process_config-Gives :
      (p : List ℕ) (c : ProcessConfig) (st : Config File)
      → is_loaded st.load_state ≡ true
      → is_empty p ≡ false
      → Cached st
      → Gives st (config_of ini st.inifile p) (get_process_config ini p c st)
  unfolding get_process_config Gives
  get_process_config-Gives p c st loaded named cached = rw loaded (
      by_if (Gives st (config_of ini st.inifile p)) (string_eq st.process_last p)
        (last_config-Gives p st cached named)
        (λ other.
          needed-Gives p c st _ _ loaded refl (need_default_configuration-Needs st loaded cached)))
