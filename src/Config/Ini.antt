-- ===== src/Config/Ini.antt =====
-- libinifile/include/inifile.h: what the configuration uses of the class IniFile, a binary library,
-- and of atoi. A file object is a value of `File`; names and values are strings of bytes.
use y_rpc.Common.{ℕ, ◌≡◌, Bool, true, false, List, ℤ, is_negative}

-- `load` and the getters return their result code last; a code below 0 is RET_ERR.
pub record IniFile (File : Type 0) : Type 0 where
  pub load : List ℕ → File → File × ℤ
  pub save : File → ℤ
  pub get_string_value : List ℕ → List ℕ → File → List ℕ × ℤ
  pub get_int_value : List ℕ → List ℕ → File → ℤ × ℤ
  pub get_bool_value : List ℕ → List ℕ → File → Bool × ℤ
  pub get_value : List ℕ → List ℕ → File → List ℕ × ℤ
  pub set_value : List ℕ → List ℕ → List ℕ → File → File
  pub has_section : List ℕ → File → Bool
  pub has_key : List ℕ → List ℕ → File → Bool
  pub section_names : File → List (List ℕ)
  pub to_lower_case : List ℕ → List ℕ
  pub atoi : List ℕ → ℤ

-- A getter finds a key that the section has.
pub record FindsKeys {File : Type 0} (ini : IniFile File) : Type 0 where
  pub string_found :
      (section key : List ℕ) (f : File)
      → ini.has_key section key f ≡ true
      → is_negative (ini.get_string_value section key f).1 ≡ false
  pub int_found :
      (section key : List ℕ) (f : File)
      → ini.has_key section key f ≡ true
      → is_negative (ini.get_int_value section key f).1 ≡ false
  pub bool_found :
      (section key : List ℕ) (f : File)
      → ini.has_key section key f ≡ true
      → is_negative (ini.get_bool_value section key f).1 ≡ false
