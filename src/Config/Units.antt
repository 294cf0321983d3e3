-- ===== src/Config/Units.antt =====
-- libinifile/rpc_conf_base.cpp: getTimeUnitConversion, and the `int` arithmetic around it. A
-- product of `int`s that does not fit wraps, as two's complement does.
use y_rpc.Common.{
  ℕ, ◌-◌, ◌*◌, ◌%◌, ◌^◌, Bool, true, false, ◌&&◌, ◌||◌, List, [], ◌∷◌, ltb, ◌==◌, ℤ, pos, negsuc,
  bytes_of, if◌then◌else◌,
}
use y_rpc.Config.Ini.{IniFile}

abbrev pub starts_with : List ℕ → List ℕ → Bool
starts_with [] cs = true
starts_with (p ∷ ps) [] = false
starts_with (p ∷ ps) (c ∷ cs) = p == c && starts_with ps cs

-- `string::npos != text.find(word)`
abbrev pub contains : List ℕ → List ℕ → Bool
contains word [] = starts_with word []
contains word (c ∷ cs) = starts_with word (c ∷ cs) || contains word cs

-- The conversion of an `int` to `unsigned int`
abbrev pub to_unsigned : ℤ → ℕ
to_unsigned (pos n) = n % 2 ^ 32
to_unsigned (negsuc n) = 2 ^ 32 - 1 - n % 2 ^ 32

-- The bit pattern of an `int` read again
abbrev pub of_unsigned : ℕ → ℤ
of_unsigned u = if ltb u (2 ^ 31) then pos u else negsuc (2 ^ 32 - 1 - u)

-- An `int` times an `int` that is not negative
abbrev pub mul_int : ℤ → ℕ → ℤ
mul_int a k = of_unsigned (to_unsigned a * k % 2 ^ 32)

-- In milliseconds
unfoldable pub get_time_unit_conversion : {File : Type 0} → IniFile File → List ℕ → ℕ
get_time_unit_conversion ini text =
    let unit = ini.to_lower_case text in
    if contains (bytes_of "ms") unit
    then 1
    else (if contains (bytes_of "s") unit
        then 1000
        else (if contains (bytes_of "min") unit then 60 * 1000 else 1))

-- `atoi(text.c_str()) * getTimeUnitConversion(text)`
unfoldable pub time_of : {File : Type 0} → IniFile File → List ℕ → ℤ
time_of ini text = mul_int (ini.atoi text) (get_time_unit_conversion ini text)
