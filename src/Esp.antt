-- ===== src/Esp.antt =====
-- `esp_err_t` of ESP-IDF: the codes that the program names, and any other.
use esp32_sparkplug.Prelude.{ℕ, Bool, true, false}

pub data EspErr : Type 0 where
  esp_ok esp_fail err_no_mem err_invalid_arg err_invalid_state err_invalid_size err_not_found
        err_not_supported err_timeout err_wifi_not_connect err_nvs_not_found err_nvs_no_free_pages
        err_nvs_new_version_found :
      EspErr
  other_err : ℕ → EspErr

-- `err == ESP_OK`.
abbrev pub is_ok : EspErr → Bool
is_ok EspErr.esp_ok = true
is_ok _ = false

-- `err == ESP_ERR_INVALID_STATE`.
abbrev pub is_invalid_state : EspErr → Bool
is_invalid_state EspErr.err_invalid_state = true
is_invalid_state _ = false

-- `err == ESP_ERR_WIFI_NOT_CONNECT`.
abbrev pub is_wifi_not_connect : EspErr → Bool
is_wifi_not_connect EspErr.err_wifi_not_connect = true
is_wifi_not_connect _ = false

-- A pointer that is only compared with NULL.
pub data Pointer : Type 0 where
  null valid : Pointer

abbrev pub is_null : Pointer → Bool
is_null Pointer.null = true
is_null Pointer.valid = false

-- `err == ESP_ERR_NVS_NOT_FOUND`.
abbrev pub is_nvs_not_found : EspErr → Bool
is_nvs_not_found EspErr.err_nvs_not_found = true
is_nvs_not_found _ = false

-- The two codes that ask for the NVS partition to be erased.
abbrev pub wants_erase : EspErr → Bool
wants_erase EspErr.err_nvs_no_free_pages = true
wants_erase EspErr.err_nvs_new_version_found = true
wants_erase _ = false
