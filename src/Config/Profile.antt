-- ===== src/Config/Profile.antt =====
-- libinifile/rpc_conf_base.cpp: a new profile and a new version, against what an object keeps.
use y_rpc.Common.{
  ℕ, ◌≡◌, refl, sym, ap, ◌∙◌, Bool, true, false, ◌&&◌, List, Option, none, some, ℤ, pos, is_zero,
  is_negative, by_if, string_eq, string_eq_refl, string_eq→eq,
}
use y_rpc.Config.{
  DefaultGlobalConfig, ProcessConfig, Config, is_loaded, has_failed, is_empty, load_profile,
  set_config_profile, need_default_configuration, get_process_config, get_rpc_version,
  set_rpc_version,
}
use y_rpc.Config.Ini.{IniFile}
use y_rpc.Config.Reference.{Reads, read_default_configuration-Reads}
use y_rpc.Config.Cache.{Cached}

and-false : (b : Bool) → (b && false) ≡ false
and-false true = refl
and-false false = refl

flag-Reads :
    {File : Type 0} (st : Config File) (o : Option DefaultGlobalConfig) (r : ℤ × Config File)
    → Reads st o r
    → is_negative r.0 ≡ false
    → r.1.get_default_conf_flag ≡ true
flag-Reads st none r (code, flag, version, same) ok = let minus = ap is_negative code in cc
flag-Reads st (some d) r (code, flag, version, same) ok = flag

module _ {File : Type 0} (ini : IniFile File) where
  -- A named profile that is not the current one is loaded.
  set_config_profile-loads :
      (path : List ℕ) (st : Config File)
      → is_empty path ≡ false
      → string_eq path st.conf_file ≡ false
      → set_config_profile ini path st ≡ load_profile ini path st
  unfolding set_config_profile
  set_config_profile-loads path st named other =
      simp (named, other, and-false (is_loaded st.load_state), and-false (has_failed st.load_state))

  -- The first profile of an object that has read nothing yet
  pub set_config_profile-Cached :
      (path : List ℕ) (st : Config File)
      → is_empty path ≡ false
      → string_eq path st.conf_file ≡ false
      → is_zero (ini.load path st.inifile).1 ≡ true
      → st.get_default_conf_flag ≡ false
      → is_empty st.process_last ≡ true
      → (is_loaded (set_config_profile ini path st).1.load_state ≡ true)
        × Cached ini (set_config_profile ini path st).1
  unfolding load_profile
  set_config_profile-Cached path st named other loads unread unasked =
      rw (set_config_profile-loads path st named other, loads)
        (refl, record { defaults_known = λ h. cc; last_known = λ h. cc })

  -- When setConfigProfile loads a file with a path that is not empty and is not the one that stands
  -- there, getProcessConfig of the process that was asked for last returns 0 and what was kept of
  -- the former file, whatever the new file says.
  pub set_config_profile-get_process_config :
      (path : List ℕ) (c : ProcessConfig) (st : Config File)
      → is_empty path ≡ false
      → string_eq path st.conf_file ≡ false
      → is_zero (ini.load path st.inifile).1 ≡ true
      → ((get_process_config ini st.process_last c (set_config_profile ini path st).1).0 ≡ pos 0)
        × ((get_process_config ini st.process_last c (set_config_profile ini path st).1).1
            ≡ st.process_config_last)
  unfolding load_profile get_process_config
  set_config_profile-get_process_config path c st named other loads =
      rw (set_config_profile-loads path st named other, loads, string_eq_refl st.process_last)
        (refl, refl)

  -- Once the defaults are there, they are not read again.
  get_default_conf_flag-need :
      (st : Config File)
      → is_loaded st.load_state ≡ true
      → is_negative (need_default_configuration ini st).0 ≡ false
      → (need_default_configuration ini st).1.get_default_conf_flag ≡ true
  unfolding need_default_configuration
  get_default_conf_flag-need st loaded =
      by_if (λ (r : ℤ × Config File). is_negative r.0 ≡ false → r.1.get_default_conf_flag ≡ true)
        st.get_default_conf_flag (λ read h. read)
        (λ unread. flag-Reads st _ _ (read_default_configuration-Reads ini st loaded))

  kept_version :
      (st : Config File)
      → st.get_default_conf_flag ≡ true
      → (get_rpc_version ini st).0 ≡ st.rpc_version
  unfolding get_rpc_version need_default_configuration
  kept_version st read = simp read

  -- After setRPCVersion in an object with a loaded file whose defaults can be read, getRPCVersion
  -- returns the version that was set: also if it was the current one or the file could not be
  -- written, which the result code alone tells.
  pub set_rpc_version-get_rpc_version :
      (version : List ℕ) (st : Config File)
      → is_loaded st.load_state ≡ true
      → is_negative (need_default_configuration ini st).0 ≡ false
      → (get_rpc_version ini (set_rpc_version ini version st).1).0 ≡ version
  unfolding set_rpc_version
  set_rpc_version-get_rpc_version version st loaded ok =
      let needed = (need_default_configuration ini st).1 in
      let read = get_default_conf_flag-need st loaded ok in
      rw ok (
        by_if (λ (r : ℤ × Config File). (get_rpc_version ini r.1).0 ≡ version)
          (string_eq version needed.rpc_version)
          (λ same. kept_version needed read ∙ sym (string_eq→eq version needed.rpc_version same))
          (λ other. kept_version _ read))
