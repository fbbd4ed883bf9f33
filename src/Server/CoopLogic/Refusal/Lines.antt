-- ===== src/Server/CoopLogic/Refusal/Lines.antt =====
-- Which lines of coop_logic.c refuse a command.
use quan_ly_chuong_ga.Prelude.{◌≡◌, refl, Bool, true, false, not, ◌==◌, [], ◌∷◌, ℤ}
use quan_ly_chuong_ga.CString.{Bytes, codes, print_ℕ, print_ℤ}
use quan_ly_chuong_ga.Shared.Protocol
use quan_ly_chuong_ga.Shared.Protocol.{
  CommandType, cmd_scan, cmd_connect, cmd_info, cmd_control, cmd_setcfg, cmd_chpass, cmd_bye,
  cmd_add_device, cmd_assign_device, cmd_coop_list, cmd_coop_add, cmd_unknown,
}
use quan_ly_chuong_ga.Server.CoopLogic.State.{Server}

-- The lines of the responses with a code of 200 or more.
abbrev pub is_refusal : Bytes → Bool
is_refusal [] = false
is_refusal (c ∷ _) = not (c == b'1')

pub connect_ok-accepts :
    (token : Bytes) → is_refusal (Protocol.protocol_format_connect_ok 2048 token).0 ≡ false
unfolding Protocol.protocol_format_connect_ok Protocol.protocol_format_line Protocol.line_text
    Protocol.code_value print_ℕ
connect_ok-accepts [] = refl
connect_ok-accepts (c ∷ token) = refl

pub setcfg_ok-accepts :
    (text : Bytes) → is_refusal (Protocol.protocol_format_setcfg_ok 2048 text).0 ≡ false
unfolding Protocol.protocol_format_setcfg_ok Protocol.protocol_format_line Protocol.line_text
    Protocol.code_value print_ℕ
setcfg_ok-accepts [] = refl
setcfg_ok-accepts (c ∷ token) = refl

pub line-accepts :
    (text payload : Bytes)
    → is_refusal (Protocol.protocol_format_line 2048 Protocol.resp_coopadd_ok text payload).0
      ≡ false
unfolding Protocol.protocol_format_line Protocol.line_text Protocol.code_value print_ℕ
line-accepts text [] = refl
line-accepts text (c ∷ payload) = refl

pub coopadd_ok-accepts :
    (id : ℤ) → is_refusal (Protocol.protocol_format_coopadd_ok 2048 id).0 ≡ false
unfolding Protocol.protocol_format_coopadd_ok
coopadd_ok-accepts id = line-accepts (codes "COOPADD_OK") (print_ℤ id)

pub control_ok-accepts : is_refusal (Protocol.protocol_format_control_ok 2048).0 ≡ false
unfolding Protocol.protocol_format_control_ok Protocol.protocol_format_line Protocol.line_text
    Protocol.code_value print_ℕ
control_ok-accepts = refl

pub pass_ok-accepts : is_refusal (Protocol.protocol_format_pass_ok 2048).0 ≡ false
unfolding Protocol.protocol_format_pass_ok Protocol.protocol_format_line Protocol.line_text
    Protocol.code_value print_ℕ
pass_ok-accepts = refl

pub bye_ok-accepts : is_refusal (Protocol.protocol_format_bye_ok 2048).0 ≡ false
unfolding Protocol.protocol_format_bye_ok Protocol.protocol_format_line Protocol.line_text
    Protocol.code_value print_ℕ
bye_ok-accepts = refl

pub add_ok-accepts : is_refusal (Protocol.protocol_format_add_ok 2048).0 ≡ false
unfolding Protocol.protocol_format_add_ok Protocol.protocol_format_line Protocol.line_text
    Protocol.code_value print_ℕ
add_ok-accepts = refl

pub assign_ok-accepts : is_refusal (Protocol.protocol_format_assign_ok 2048).0 ≡ false
unfolding Protocol.protocol_format_assign_ok Protocol.protocol_format_line Protocol.line_text
    Protocol.code_value print_ℕ
assign_ok-accepts = refl

-- A handler's result: where its line is a refusal, the state is `s`.
abbrev pub Refuses : {D F : Type 0} → Server D F → Server D F × Bytes → Type 0
Refuses s r = is_refusal r.1 ≡ true → r.0 ≡ s
