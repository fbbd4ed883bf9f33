-- ===== src/Server/Log.antt =====
-- server/monitor_log.c: the event log. The time stamp of an entry and a log file that cannot be
-- opened are left out.
use quan_ly_chuong_ga.Prelude.{List, [], ◌∷◌, ◌++◌}
use quan_ly_chuong_ga.CString.{Bytes}

pub record LogEvent : Type 0 where
  pub device_id : Bytes
  pub message : Bytes

unfoldable pub log_device_event : Bytes → Bytes → List LogEvent → List LogEvent
log_device_event device_id message log =
    log ++ record { device_id = device_id; message = message } ∷ []
