-- ===== src/Examples/Settings.antt =====
-- An INI file as a list of entries, two files, and the claims about the configuration on them.
use y_rpc.Common.{
  ℕ, ◌+◌, ◌-◌, ◌*◌, ◌≡◌, refl, Bool, true, false, ◌&&◌, List, [], ◌∷◌, Option, none, some, ℤ, pos,
  negsuc, is_negative, if◌then◌else◌, ltb, bytes_of, string_eq,
}
use mathlib.Core.List.{Memᴰ}
use y_rpc.Config.{
  ProcessConfig, DefaultGlobalConfig, Config, new_config, set_config_profile, load_profile,
  get_process_config, set_rpc_version, keep_config, get_process_net_config, general_config,
  read_default_configuration, need_default_configuration,
}
use y_rpc.Config.Ini.{IniFile, FindsKeys}
use y_rpc.Config.Keys.{fixthreadskey}
use y_rpc.Config.Units.{get_time_unit_conversion, time_of}
use y_rpc.Config.Check.{self_check_validity, passes, check_process}
use y_rpc.Config.Reference.{config_of}
use y_rpc.Config.Cache.{Cached, Gives, get_process_config-Gives}
use y_rpc.Config.Validity.{self_check_validity-get_process_config}
use y_rpc.Config.Profile.{set_config_profile-Cached, set_config_profile-get_process_config}

record Entry : Type 0 where
  section : List ℕ
  key : List ℕ
  value : List ℕ

pub record IniText : Type 0 where
  names : List (List ℕ)
  entries : List Entry

abbrev find_entry : List ℕ → List ℕ → List Entry → Option (List ℕ)
find_entry section key [] = none
find_entry section key (e ∷ es) =
    let rest = find_entry section key es in
    if string_eq section e.section && string_eq key e.key then some e.value else rest

abbrev is_digit : ℕ → Bool
is_digit c = if ltb c 48 then false else ltb c 58

abbrev digits : ℕ → List ℕ → ℕ
digits n [] = n
digits n (c ∷ cs) = let rest = digits (n * 10 + (c - 48)) cs in if is_digit c then rest else n

abbrev lower : List ℕ → List ℕ
lower [] = []
lower (c ∷ cs) = (if ltb 64 c && ltb c 91 then c + 32 else c) ∷ lower cs

abbrev listed : List ℕ → List (List ℕ) → Bool
listed name [] = false
listed name (n ∷ ns) = if string_eq name n then true else listed name ns

abbrev read_entry : {A : Type 0} → (List ℕ → A) → Option (List ℕ) → A × ℤ
read_entry read none = (read [], negsuc 0)
read_entry read (some v) = (read v, pos 0)

abbrev is_there : {A : Type 0} → Option A → Bool
is_there none = false
is_there (some a) = true

abbrev entry :
    Prim.Native.String.String → Prim.Native.String.String → Prim.Native.String.String → Entry
entry section key value = record {
  section = bytes_of section;
  key = bytes_of key;
  value = bytes_of value;
}

abbrev defaults_text : List Entry
defaults_text =
    entry "GlobalConfiguration" "DefaultFixThreads" "4"
    ∷ entry "GlobalConfiguration" "DefaultDynThreads" "8"
    ∷ entry "GlobalConfiguration" "DefaultMaxWorkQueue" "100"
    ∷ entry "GlobalConfiguration" "DefaultCycleTimeout" "2S"
    ∷ entry "GlobalConfiguration" "DefaultConnectTimeout" "300ms"
    ∷ entry "GlobalConfiguration" "DefaultInteractiveTimeout" "1m"
    ∷ entry "GlobalConfiguration" "DefaultTimeoutEn" "true"
    ∷ entry "GlobalConfiguration" "DefaultCycleCheckEn" "false"
    ∷ entry "GlobalConfiguration" "RPCVersion" "1.0"
    ∷ entry "pa" "IPAddress" "10.0.0.1"
    ∷ entry "pa" "ListenPort" "8000"
    ∷ []

abbrev names_text : List (List ℕ)
names_text =
    [] ∷ bytes_of "GlobalConfiguration" ∷ bytes_of "ModuleConfiguration" ∷ bytes_of "pa" ∷ []

-- A file, and another one in which "pa" has one worker
abbrev first_text : IniText
first_text = record { names = names_text; entries = defaults_text }

abbrev second_text : IniText
second_text = record { names = names_text; entries = entry "pa" "FixThreads" "1" ∷ defaults_text }

abbrev find_value : List ℕ → List ℕ → IniText → Option (List ℕ)
find_value section key f = find_entry section key f.entries

abbrev pub text_file : IniFile IniText
text_file = record {
  load = λ path f.
      if string_eq path (bytes_of "a.ini") then (first_text, pos 0) else (second_text, pos 0);
  save = λ f. negsuc 0;
  get_string_value = λ section key f. read_entry (λ v. v) (find_value section key f);
  get_int_value = λ section key f. read_entry (λ v. pos (digits 0 v)) (find_value section key f);
  get_bool_value =
      λ section key f. read_entry (string_eq (bytes_of "true")) (find_value section key f);
  get_value = λ section key f. read_entry (λ v. v) (find_value section key f);
  set_value = λ section key v f. record f {
    entries = (record { section = section; key = key; value = v }) ∷ f.entries;
  };
  has_section = λ name f. listed name f.names;
  has_key = λ section key f. is_there (find_value section key f);
  section_names = λ f. f.names;
  to_lower_case = lower;
  atoi = λ v. pos (digits 0 v);
}

finds_there :
    {A : Type 0} (read : List ℕ → A) (o : Option (List ℕ))
    → is_there o ≡ true
    → is_negative (read_entry read o).1 ≡ false
finds_there read none h = cc
finds_there read (some v) h = refl

text_file-FindsKeys : FindsKeys text_file
text_file-FindsKeys = record {
  string_found = λ section key f. finds_there (λ v. v) (find_value section key f);
  int_found = λ section key f. finds_there (λ v. pos (digits 0 v)) (find_value section key f);
  bool_found =
      λ section key f. finds_there (string_eq (bytes_of "true")) (find_value section key f);
}

abbrev pub no_config : ProcessConfig
no_config = record {
  fix_threads = pos 0;
  dyn_threads = pos 0;
  max_workqueue = pos 0;
  cycle_timeout = pos 0;
  connect_timeout = pos 0;
  interactive_timeout = pos 0;
  timeout_en = false;
  cycle_check_en = false;
  ip_address = [];
  listen_port = 0;
}

abbrev no_defaults : DefaultGlobalConfig
no_defaults = record {
  default_fix_threads = pos 0;
  default_dyn_threads = pos 0;
  default_max_workqueue = pos 0;
  default_cycle_timeout = pos 0;
  default_connect_timeout = pos 0;
  default_interactive_timeout = pos 0;
  default_timeout_en = false;
  default_cycle_check_en = false;
}

-- A new object
abbrev pub fresh : Config IniText
unfolding new_config
fresh = new_config (record { names = []; entries = [] }) no_config no_defaults

-- The same, with the first file loaded
abbrev loaded : Config IniText
unfolding new_config set_config_profile load_profile string_eq
loaded = (set_config_profile text_file (bytes_of "a.ini") fresh).1

loaded-Cached : Cached text_file loaded
unfolding string_eq fresh loaded set_config_profile
loaded-Cached =
    (set_config_profile-Cached text_file (bytes_of "a.ini") fresh refl refl refl refl refl).1

get_process_config-Gives_example :
    Gives text_file loaded
      (config_of text_file loaded.inifile (bytes_of "pa"))
      (get_process_config text_file (bytes_of "pa") no_config loaded)
unfolding loaded
get_process_config-Gives_example =
    get_process_config-Gives text_file (bytes_of "pa") no_config loaded refl refl loaded-Cached

self_check_validity-get_process_config_example :
    (get_process_config text_file
      (bytes_of "pa")
      no_config
      (self_check_validity text_file (bytes_of "True") loaded).1).0
    ≡ pos 0
unfolding loaded self_check_validity passes check_process string_eq
self_check_validity-get_process_config_example =
    self_check_validity-get_process_config text_file text_file-FindsKeys (bytes_of "True")
      (bytes_of "pa") no_config loaded refl refl (λ h. cc) loaded-Cached refl
      (Memᴰ.tail (Memᴰ.tail (Memᴰ.head refl))) refl refl refl

-- The first file was read, and "pa" was asked for.
abbrev asked : Config IniText
asked = (get_process_config text_file (bytes_of "pa") no_config loaded).2

set_config_profile-get_process_config_example :
    ((get_process_config text_file asked.process_last no_config
        (set_config_profile text_file (bytes_of "b.ini") asked).1).0
      ≡ pos 0)
    × ((get_process_config text_file asked.process_last no_config
          (set_config_profile text_file (bytes_of "b.ini") asked).1).1
        ≡ asked.process_config_last)
unfolding loaded get_process_config string_eq keep_config get_process_net_config general_config
    need_default_configuration read_default_configuration
set_config_profile-get_process_config_example =
    set_config_profile-get_process_config text_file (bytes_of "b.ini") no_config asked refl refl
      refl

-- What was kept has four workers, the second file says one.
stale_threads : asked.process_config_last.fix_threads ≡ pos 4
unfolding loaded get_process_config string_eq keep_config get_process_net_config general_config
    need_default_configuration read_default_configuration
stale_threads = refl

second_threads : (text_file.get_int_value (bytes_of "pa") fixthreadskey second_text).0 ≡ pos 1
unfolding string_eq
second_threads = refl

-- The version that is set already is refused with -1.
same_version : (set_rpc_version text_file (bytes_of "1.0") loaded).0 ≡ negsuc 0
unfolding loaded set_rpc_version need_default_configuration read_default_configuration string_eq
same_version = refl

-- Two minutes are read as two seconds, since "mins" has an "s".
two_mins : time_of text_file (bytes_of "2mins") ≡ pos 2000
unfolding time_of get_time_unit_conversion
two_mins = refl
