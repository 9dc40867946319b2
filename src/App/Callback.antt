-- ===== src/App/Callback.antt =====
-- main/app_main.c: the session's status callback. The session calls it by a pointer; the history
-- records the call, and `on_session` runs it. It only overwrites two flags, so that the newest call
-- decides.
use esp32_sparkplug.Prelude.{ℕ, ◌==◌, not, ◌&&◌, Option, none, some, [], ◌∷◌, if◌then◌else◌}
use esp32_sparkplug.App.State.{AppState}
use esp32_sparkplug.Session.State.{SessionStatus}
use esp32_sparkplug.Platform.{Act, Trace, Call}
use esp32_sparkplug.Board.{Board, BoardAct, ◌>>=◌, ◌>>◌, pure, modify, on_node}

-- The pointer to `app_handle_sparkplug_status_update`.
abbrev pub status_update : ℕ
status_update = 1

unfoldable pub handle_sparkplug_status_update : Option SessionStatus → AppState → AppState
handle_sparkplug_status_update none s = s
handle_sparkplug_status_update (some status) s = record s {
  mqtt_connected = status.mqtt_connected;
  waiting_for_primary_host = status.primary_host_configured && not status.primary_host_online;
}

-- The status of the newest call of the callback.
unfoldable pub newest_status : Trace → Option SessionStatus
newest_status [] = none
newest_status (Call.status_callback f ctx status ∷ t) =
    let older = newest_status t in if f == status_update then some status else older
newest_status (_ ∷ t) = newest_status t

abbrev pub deliver : Board → Board
deliver b = record b { app = handle_sparkplug_status_update (newest_status b.node.trace) b.app }

-- A function of the session, with the calls of the callback that it makes.
unfoldable pub on_session : {A : Type 0} → Act A → BoardAct A
unfolding handle_sparkplug_status_update newest_status
on_session act = do a ← on_node act; modify deliver; pure a
