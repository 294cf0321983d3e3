-- ===== src/Config/Check.antt =====
-- libinifile/rpc_conf_base.cpp: selfCheckValidity, getLoadState and getCheckState. The loop over
-- the names of the module section only writes to the log, and has no definition.
use y_rpc.Common.{
  ℕ, Bool, true, not, ◌&&◌, ◌||◌, List, [], ◌∷◌, drop, ℤ, pos, negsuc, bytes_of, string_eq,
  if◌then◌else◌,
}
use y_rpc.Config.{LoadState, CheckState, check_success, check_failed, Config, is_loaded, is_checked}
use y_rpc.Config.Ini.{IniFile}
use y_rpc.Config.Keys.{
  modulesection, globalsection, defaultfixthreadskey, defaultdynthreadskey, defaultmaxworkqueuekey,
  defaultcycletimeoutkey, defaultconnecttimeoutkey, defaultinteractivetimeoutkey,
  defaulttimeoutenkey, defaultcyclecheckenkey, ipaddresskey, listenportkey,
}
use y_rpc.Config.Units.{contains}

-- The keys that the global section must have
abbrev pub default_keys : List (List ℕ)
default_keys =
    defaultfixthreadskey ∷ defaultdynthreadskey ∷ defaultmaxworkqueuekey ∷ defaultcycletimeoutkey
    ∷ defaultconnecttimeoutkey ∷ defaultinteractivetimeoutkey ∷ defaulttimeoutenkey
    ∷ defaultcyclecheckenkey ∷ []

unfoldable pub get_load_state : {File : Type 0} → Config File → LoadState
get_load_state st = st.load_state

unfoldable pub get_check_state : {File : Type 0} → Config File → CheckState
get_check_state st = st.check_state

module _ {File : Type 0} (ini : IniFile File) where
  abbrev pub has_keys : List (List ℕ) → List ℕ → File → Bool
  has_keys [] section f = true
  has_keys (key ∷ keys) section f = ini.has_key section key f && has_keys keys section f

  -- A section that is not a process, or a process with an address and a port
  unfoldable pub check_process : List ℕ → File → Bool
  check_process name f =
      string_eq name globalsection
      || (string_eq name modulesection
          || (ini.has_key name ipaddresskey f && ini.has_key name listenportkey f))

  -- The loop over the process sections: none of them fails.
  abbrev pub check_processes : List (List ℕ) → File → Bool
  check_processes [] f = true
  check_processes (name ∷ names) f = check_process name f && check_processes names f

  -- Whether CHECK_FAILED is not reached
  unfoldable pub passes : File → Bool
  passes f =
      ini.has_section globalsection f
      && (has_keys default_keys globalsection f
          && (ini.has_section modulesection f && check_processes (drop 1 (ini.section_names f)) f))

  unfoldable pub self_check_validity : List ℕ → Config File → ℤ × Config File
  unfolding passes
  self_check_validity check_value st =
      if not (contains (bytes_of "true") (ini.to_lower_case check_value))
      then (pos 0, st)
      else (if not (is_loaded st.load_state)
          then (negsuc 0, st)
          else (if is_checked st.check_state
              then (pos 0, st)
              else (if passes st.inifile
                  then (pos 0, record st { check_state = check_success })
                  else (negsuc 0, record st { check_state = check_failed }))))
