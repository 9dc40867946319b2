-- ===== src/Wifi/State.antt =====
-- components/wifi_manager/wifi_manager.c: the state, and the ESP-IDF calls that the manager makes.
use esp32_sparkplug.Prelude.{ℕ, Bool, Option, CString}

-- `wifi_manager_state_t`; handles are optional numbers.
pub record WifiState : Type 0 where
  pub initialized : Bool
  pub started : Bool
  pub connected : Bool
  pub has_ip : Bool
  pub reconnect_count : ℕ
  pub ipv4_addr : ℕ
  pub sta_netif : Option ℕ
  pub event_group : Option ℕ
  pub reconnect_timer : Option ℕ
  pub reconnect_suppressed : Bool
  pub simulated_disconnect_active : Bool

pub data WifiCall : Type 0 where
  event_group_create wifi_init wifi_deinit wifi_handler_register wifi_handler_unregister
        ip_handler_register ip_handler_unregister set_storage set_mode timer_create wifi_start
        wifi_connect wifi_disconnect get_ap_info netif_create :
      WifiCall
  netif_destroy event_group_delete set_connected_bit clear_connected_bit timer_stop timer_delete :
      ℕ → WifiCall
  timer_start_once wait_connected_bit : ℕ → ℕ → WifiCall
  set_config : CString → CString → WifiCall
