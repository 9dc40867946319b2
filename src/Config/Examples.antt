-- ===== src/Config/Examples.antt =====
-- The theorems about the node id at concrete inputs.
use esp32_sparkplug.Prelude.{
  ℕ, ◌+◌, ◌≡◌, refl, true, false, none, some, [], ◌∷◌, CString, length, snprintf_text, arith,
}
use esp32_sparkplug.Esp.{esp_ok, is_ok, is_nvs_not_found}
use esp32_sparkplug.Device.{DeviceCall}
use esp32_sparkplug.Config.State.{node_id_max_len}
use esp32_sparkplug.Config.NodeId.{
  generated_id, generate_node_id, load_id, store_new_id, init, reset_node_id,
}
use esp32_sparkplug.Config.Storage.{
  Nvs, stored, handles, node_id_init_outcome, init_survives_restart,
}
use esp32_sparkplug.Config.Generated.{generated_id-injective}
use esp32_sparkplug.Testbed.Boards.{flash, test_devices, test_board}
use esp32_sparkplug.Platform.{Trace}
use esp32_sparkplug.Board.{Board}

stored-flash : (t : Trace) → stored test_devices none t ≡ flash t
unfolding stored flash
stored-flash [] = refl
stored-flash (c ∷ t) = ground (arith, stored-flash t)

found :
    (t : Trace) (nvs : ℕ) (text : CString)
    → (stored test_devices none t).written ≡ some text
    → (test_devices.result t (DeviceCall.nvs_get_str nvs) ≡ esp_ok)
      × (test_devices.text t (DeviceCall.nvs_get_str nvs) ≡ some text)
found t nvs text = rw (stored-flash t) (λ h. ground arith)

missed :
    (t : Trace) (nvs : ℕ)
    → (stored test_devices none t).written ≡ none
    → is_nvs_not_found (test_devices.result t (DeviceCall.nvs_get_str nvs)) ≡ true
missed t nvs = rw (stored-flash t) (λ h. ground arith)

flash-Nvs : Nvs test_devices none
flash-Nvs = record {
  finds = λ t nvs text h. found t nvs text h;
  misses = λ t nvs h. missed t nvs h;
}

abbrev first_number : ℕ
first_number = 48879

abbrev second_number : ℕ
second_number = 7

generated_id-injective_example :
    (length (generated_id first_number) ≡ 13)
    × (snprintf_text (node_id_max_len + 1) (generated_id first_number) ≡ generated_id first_number)
    × (generated_id first_number ≡ generated_id second_number → first_number ≡ second_number)
generated_id-injective_example =
    generated_id-injective first_number second_number (omega arith) (omega arith)

node_id_init_outcome_example :
    (handles test_devices (init test_devices test_board).1.node.trace
      ≡ handles test_devices test_board.node.trace)
    × (is_ok (init test_devices test_board).0 ≡ true
        → (init test_devices test_board).1.config.node_id
          ≡ some (init test_devices test_board).1.config.node_id_buf)
    × (is_ok (init test_devices test_board).0 ≡ false
        → (init test_devices test_board).1.config.node_id ≡ none)
    × (handles test_devices (reset_node_id test_devices test_board).1.node.trace
        ≡ handles test_devices test_board.node.trace)
    × ((reset_node_id test_devices test_board).1.config ≡ test_board.config)
node_id_init_outcome_example = node_id_init_outcome test_devices test_board refl

-- The board after a restart: the flash and the history are as they were left.
abbrev restarted : Board
restarted = record test_board { node = (init test_devices test_board).1.node }

init_made_up : is_ok (init test_devices test_board).0 ≡ true
unfolding init load_id store_new_id generate_node_id flash
init_made_up = refl

init_survives_restart_example :
    (is_ok (init test_devices restarted).0 ≡ true)
    × ((init test_devices restarted).1.config.node_id
        ≡ (init test_devices test_board).1.config.node_id)
init_survives_restart_example =
    init_survives_restart test_devices none flash-Nvs test_board restarted refl init_made_up refl
      refl refl
