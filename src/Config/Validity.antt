-- ===== src/Config/Validity.antt =====
-- libinifile/rpc_conf_base.cpp: what a self-check that passed promises of the getters.
use y_rpc.Common.{
  ℕ, zero, suc, ◌≡◌, refl, ap, ◌∙◌, All, Bool, true, false, ◌&&◌, ◌||◌, List, [], ◌∷◌, drop, Option,
  none, some, inl, inr, Option-cases, ℤ, pos, negsuc, is_negative, by_if, bytes_of, string_eq,
}
use mathlib.Core.List.{Memᴰ}
use y_rpc.Config.{ProcessConfig, Config, is_loaded, is_checked, is_empty, get_process_config}
use y_rpc.Config.Ini.{IniFile, FindsKeys}
use y_rpc.Config.Keys.{globalsection, modulesection, ipaddresskey, listenportkey}
use y_rpc.Config.Units.{contains}
use y_rpc.Config.Check.{
  default_keys, has_keys, check_process, check_processes, passes, self_check_validity,
}
use y_rpc.Config.Reference.{found, defaults_of, config_of}
use y_rpc.Config.Cache.{config_result, Cached, Gives, get_process_config-Gives}

and-left : (a b : Bool) → (a && b) ≡ true → a ≡ true
and-left true b h = refl
and-left false b h = h

and-right : (a b : Bool) → (a && b) ≡ true → b ≡ true
and-right true b h = h
and-right false b h = cc

or-right : (a b : Bool) → a ≡ false → (a || b) ≡ true → b ≡ true
or-right true b e h = cc
or-right false b e h = h

found-some : {A : Type 0} (r : A × ℤ) → is_negative r.1 ≡ false → found r ≡ some r.0
found-some r h = rw h

abbrev is_some : {A : Type 0} → Option A → Bool
is_some none = false
is_some (some a) = true

code-config_result :
    {File : Type 0} (r : ℤ × ProcessConfig × Config File)
    → is_some (config_result r) ≡ true
    → r.0 ≡ pos 0
code-config_result (pos zero, a, st) h = refl
code-config_result (pos (suc n), a, st) h = cc
code-config_result (negsuc n, a, st) h = cc

module _ {File : Type 0} (ini : IniFile File) (finds : FindsKeys ini) where
  has_keys→All :
      (keys : List (List ℕ)) (section : List ℕ) (f : File)
      → has_keys ini keys section f ≡ true
      → All (λ key. ini.has_key section key f ≡ true) keys
  has_keys→All [] section f h = tt
  has_keys→All (key ∷ keys) section f h =
      (and-left _ _ h, has_keys→All keys section f (and-right (ini.has_key section key f) _ h))

  found_int :
      (section key : List ℕ) (f : File)
      → ini.has_key section key f ≡ true
      → found (ini.get_int_value section key f) ≡ some (ini.get_int_value section key f).0
  found_int section key f h = found-some _ (finds.int_found section key f h)

  found_string :
      (section key : List ℕ) (f : File)
      → ini.has_key section key f ≡ true
      → found (ini.get_string_value section key f) ≡ some (ini.get_string_value section key f).0
  found_string section key f h = found-some _ (finds.string_found section key f h)

  found_bool :
      (section key : List ℕ) (f : File)
      → ini.has_key section key f ≡ true
      → found (ini.get_bool_value section key f) ≡ some (ini.get_bool_value section key f).0
  found_bool section key f h = found-some _ (finds.bool_found section key f h)

  defaults_of-has_keys :
      (f : File)
      → has_keys ini default_keys globalsection f ≡ true
      → is_some (defaults_of ini f) ≡ true
  unfolding defaults_of
  defaults_of-has_keys f h =
      let (k0, (k1, (k2, (k3, (k4, (k5, (k6, (k7, k8)))))))) =
        has_keys→All default_keys globalsection f h in
      rw
        (
          found_int _ _ f k0,
          found_int _ _ f k1,
          found_int _ _ f k2,
          found_string _ _ f k3,
          found_string _ _ f k4,
          found_string _ _ f k5,
          found_bool _ _ f k6,
          found_bool _ _ f k7,
        )
        refl

  config_of-has_keys :
      (p : List ℕ) (f : File)
      → is_some (defaults_of ini f) ≡ true
      → ini.has_key p ipaddresskey f ≡ true
      → ini.has_key p listenportkey f ≡ true
      → is_some (config_of ini f p) ≡ true
  unfolding config_of
  config_of-has_keys p f defaults address port = elim (Option-cases (defaults_of ini f)) [
    | inl e ↦ cc
    | inr (d, e) ↦ rw (e, found_string p _ f address, found_int p _ f port) refl
  ]

  check_process-has_keys :
      (p : List ℕ) (f : File)
      → check_process ini p f ≡ true
      → string_eq p globalsection ≡ false
      → string_eq p modulesection ≡ false
      → (ini.has_key p ipaddresskey f ≡ true) × (ini.has_key p listenportkey f ≡ true)
  unfolding check_process
  check_process-has_keys p f h g d =
      let both : (ini.has_key p ipaddresskey f && ini.has_key p listenportkey f) ≡ true =
        or-right _ _ d (or-right _ _ g h) in
      (and-left _ _ both, and-right (ini.has_key p ipaddresskey f) _ both)

  check_processes-Mem :
      (names : List (List ℕ)) (f : File) {p : List ℕ}
      → check_processes ini names f ≡ true
      → Memᴰ p names
      → check_process ini p f ≡ true
  check_processes-Mem [] f h m = elim m [ ]
  check_processes-Mem (name ∷ names) f h (Memᴰ.head e) =
      ap (λ p. check_process ini p f) e ∙ and-left _ _ h
  check_processes-Mem (name ∷ names) f h (Memᴰ.tail m) =
      check_processes-Mem names f (and-right (check_process ini name f) _ h) m

  passes-parts :
      (f : File)
      → passes ini f ≡ true
      → (has_keys ini default_keys globalsection f ≡ true)
        × (check_processes ini (drop 1 (ini.section_names f)) f ≡ true)
  unfolding passes
  passes-parts f h =
      let keys = and-right (ini.has_section globalsection f) _ h in
      (
        and-left _ _ keys,
        and-right (ini.has_section modulesection f) _
            (and-right (has_keys ini default_keys globalsection f) _ keys),
      )

  Checked : Config File → ℤ × Config File → Type 0
  Checked st r =
      r.0 ≡ pos 0
      → (passes ini st.inifile ≡ true)
        × Cached ini r.1
        × (r.1.inifile ≡ st.inifile)
        × (is_loaded r.1.load_state ≡ true)

  self_check_validity-Checked :
      (check_value : List ℕ) (st : Config File)
      → contains (bytes_of "true") (ini.to_lower_case check_value) ≡ true
      → is_loaded st.load_state ≡ true
      → (is_checked st.check_state ≡ true → passes ini st.inifile ≡ true)
      → Cached ini st
      → Checked st (self_check_validity ini check_value st)
  unfolding self_check_validity Checked
  self_check_validity-Checked check_value st asked loaded former cached =
      rw (asked, loaded)
        (by_if (Checked st) (is_checked st.check_state) (λ h z. (former h, cached, refl, loaded))
          (λ unchecked.
            by_if (Checked st) (passes ini st.inifile)
              (λ h z. (
                h,
                record { defaults_known = cached.defaults_known; last_known = cached.last_known },
                refl,
                loaded,
              ))
              (λ failed z. cc)))

  -- A self-check that was asked for and returns 0, in an object with a loaded file that keeps what
  -- its file says and whose former check, if it succeeded, was of this file, promises every section
  -- but the first, the global and the module section: getProcessConfig of it returns 0. The INI
  -- file finds the keys that it has.
  pub self_check_validity-get_process_config :
      (check_value p : List ℕ) (c : ProcessConfig) (st : Config File)
      → contains (bytes_of "true") (ini.to_lower_case check_value) ≡ true
      → is_loaded st.load_state ≡ true
      → (is_checked st.check_state ≡ true → passes ini st.inifile ≡ true)
      → Cached ini st
      → (self_check_validity ini check_value st).0 ≡ pos 0
      → Memᴰ p (drop 1 (ini.section_names st.inifile))
      → string_eq p globalsection ≡ false
      → string_eq p modulesection ≡ false
      → is_empty p ≡ false
      → (get_process_config ini p c (self_check_validity ini check_value st).1).0 ≡ pos 0
  unfolding Checked Gives
  self_check_validity-get_process_config check_value p c st asked loaded former cached ok listed g d
        named =
      let (pass, cached', file, loaded') =
        self_check_validity-Checked check_value st asked loaded former cached ok in
      let (keys, processes) = passes-parts st.inifile pass in
      let process = check_processes-Mem _ st.inifile processes listed in
      let (address, port) = check_process-has_keys p st.inifile process g d in
      let checked = (self_check_validity ini check_value st).1 in
      let gives = get_process_config-Gives ini p c checked loaded' named cached' in
      let config = config_of-has_keys p _ (defaults_of-has_keys st.inifile keys) address port in
      code-config_result (get_process_config ini p c checked)
        (ap is_some (gives.0 ∙ ap (λ f. config_of ini f p) file) ∙ config)
