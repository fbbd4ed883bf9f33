-- ===== src/Shared/Config.antt =====
-- shared/config.h, and MAX_COOP_NAME of server/coops.h.
use quan_ly_chuong_ga.Prelude.{ℕ}

abbrev pub max_devices : ℕ
max_devices = 32

abbrev pub max_id_len : ℕ
max_id_len = 32

abbrev pub max_type_len : ℕ
max_type_len = 16

abbrev pub max_password_len : ℕ
max_password_len = 64

abbrev pub max_token_len : ℕ
max_token_len = 64

abbrev pub max_line_len : ℕ
max_line_len = 2048

abbrev pub max_json_len : ℕ
max_json_len = 2048

abbrev pub max_action_len : ℕ
max_action_len = 16

abbrev pub max_coops : ℕ
max_coops = 10

abbrev pub max_schedule_entries : ℕ
max_schedule_entries = 10

abbrev pub max_coop_name : ℕ
max_coop_name = 64
