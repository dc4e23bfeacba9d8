-- ===== src/Config.antt =====
-- config/viper.go: reading the configuration. What viper holds is a parameter.
pub mod Key
pub mod File
use konk.Base.{String, ℕ, ℤ, pos, List, Bool, true, false, Result, ok, err, errorf}
use konk.Base.Exec.{Cmd, panics, returns}
use konk.Config.Key.{ViperKey}

-- `viper.IsSet`, the getters of viper, and `net.ParseIP`, which gives the bytes of an address or nil.
pub record Viper : Type 0 where
  pub is_set : ViperKey → Bool
  pub string_at : ViperKey → String
  pub strings_at : ViperKey → List String
  pub bool_at : ViperKey → Bool
  pub int_at : ViperKey → ℤ
  pub uint_at : ViperKey → ℕ
  pub parse_ip : String → Result (List ℕ)

module _ (V : Viper) where
  module _ {ℓ} {W : Type ℓ} where
    unfoldable pub get_string : ViperKey → Cmd W String
    get_string key w = elim (V.is_set key) [ false ↦ panics w | true ↦ returns (V.string_at key) w ]

    unfoldable pub get_string_slice : ViperKey → Cmd W (List String)
    get_string_slice key w = elim (V.is_set key) [
      | false ↦ panics w
      | true ↦ returns (V.strings_at key) w
    ]

    unfoldable pub get_int : ViperKey → Cmd W ℤ
    get_int key w = elim (V.is_set key) [ false ↦ panics w | true ↦ returns (V.int_at key) w ]

    unfoldable pub get_uint : ViperKey → Cmd W ℕ
    get_uint key w = elim (V.is_set key) [ false ↦ panics w | true ↦ returns (V.uint_at key) w ]

    unfoldable pub get_ip : ViperKey → Cmd W (List ℕ)
    get_ip key w = elim (V.is_set key) [
      | false ↦ panics w
      | true ↦ elim (V.parse_ip (V.string_at key)) [ err e ↦ panics w | ok ip ↦ returns ip w ]
    ]

  unfoldable pub get_string_ok : ViperKey → String × Bool
  get_string_ok key = elim (V.is_set key) [ false ↦ ("", false) | true ↦ (V.string_at key, true) ]

  unfoldable pub get_int_ok : ViperKey → ℤ × Bool
  get_int_ok key = elim (V.is_set key) [ false ↦ (pos 0, false) | true ↦ (V.int_at key, true) ]

  unfoldable pub get_bool : ViperKey → Result Bool
  get_bool key = elim (V.is_set key) [
    | false ↦ err (errorf "The key '%v' was not set and does not have a default value")
    | true ↦ ok (V.bool_at key)
  ]
