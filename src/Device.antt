-- ===== src/Device.antt =====
-- The calls of FreeRTOS, SNTP, the ADC, NVS, the GPIO pins, the console library and `printf` that
-- components other than the session and the Wi-Fi manager make.
use esp32_sparkplug.Prelude.{ℕ, ℤ, CString}

pub data DeviceCall : Type 0 where
  -- components/time_sync
  mutex_create ready_group_create tick_count sntp_set_callback sntp_set_mode sntp_init sntp_stop
        sntp_sync_status :
      DeviceCall
  mutex_take mutex_give set_ready_bit clear_ready_bit : ℕ → DeviceCall
  wait_ready_bit : ℕ → ℕ → DeviceCall
  sntp_set_server : CString → DeviceCall
  -- components/sensor_tmp36
  adc_new_unit create_curve_fitting create_line_fitting : DeviceCall
  adc_config_channel adc_del_unit adc_read delete_curve_fitting delete_line_fitting : ℕ → DeviceCall
  raw_to_voltage : ℕ → ℤ → DeviceCall
  -- components/app_config
  nvs_open esp_random : DeviceCall
  nvs_get_str nvs_commit nvs_erase_key nvs_close : ℕ → DeviceCall
  nvs_set_str : ℕ → CString → DeviceCall
  -- main
  nvs_flash_init nvs_flash_erase netif_init event_loop_create gpio_config led_task_create
        sensor_task_create delay_until :
      DeviceCall
  gpio_set_level : ℕ → DeviceCall
  -- components/app_console
  new_repl register_help start_repl flush restart : DeviceCall
  register_command : CString → DeviceCall
  printf : CString → DeviceCall

-- `esp_reset_reason_t`, as far as the console names its values.
pub data ResetReason : Type 0 where
  unknown poweron external software panic int_wdt task_wdt wdt deepsleep brownout sdio other :
      ResetReason

-- `esp_app_desc_t`, `esp_chip_info_t` and the target that the build defines.
pub record Identity : Type 0 where
  pub project_name : CString
  pub version : CString
  pub idf_ver : CString
  pub target : CString
  pub cores : ℕ
  pub revision : ℕ
  pub reset_reason : ResetReason
