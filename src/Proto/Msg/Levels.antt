-- ===== src/Proto/Msg/Levels.antt =====
-- The names of levels and results on the wire.
use codeless_workspace.Base.{◌≡◌, refl, ◌↔◌, some, arith, Text, codes, =t_sound, ℤ}
use codeless_workspace.Proto.Msg.{
  LogLevel, trace, debug, info, warn, error, log_level_str, parse_log_level, CmdResult, accepted,
  rejected, failed, done, cmd_result_str, parse_cmd_result, new_log, log_level,
}

level_named : (s : Text) (l : LogLevel) → parse_log_level s ≡ some l → s ≡ log_level_str l
unfolding parse_log_level log_level_str
level_named s l h = ground (
  arith,
  =t_sound s (codes "trace"),
  =t_sound s (codes "debug"),
  =t_sound s (codes "info"),
  =t_sound s (codes "warn"),
  =t_sound s (codes "error"),
)

parse_name : (l : LogLevel) → parse_log_level (log_level_str l) ≡ some l
unfolding parse_log_level log_level_str
parse_name trace = refl
parse_name debug = refl
parse_name info = refl
parse_name warn = refl
parse_name error = refl

-- A level is read back from its name, and no other text is read as that level.
pub parse_log_level_iff :
    (s : Text) (l : LogLevel) → (parse_log_level s ≡ some l) ↔ (s ≡ log_level_str l)
parse_log_level_iff s l = (level_named s l, λ e. rw e (parse_name l))

result_named : (s : Text) (r : CmdResult) → parse_cmd_result s ≡ some r → s ≡ cmd_result_str r
unfolding parse_cmd_result cmd_result_str
result_named s r h = ground (
  arith,
  =t_sound s (codes "accepted"),
  =t_sound s (codes "rejected"),
  =t_sound s (codes "failed"),
  =t_sound s (codes "done"),
)

parse_result_name : (r : CmdResult) → parse_cmd_result (cmd_result_str r) ≡ some r
unfolding parse_cmd_result cmd_result_str
parse_result_name accepted = refl
parse_result_name rejected = refl
parse_result_name failed = refl
parse_result_name done = refl

-- A result is read back from its name, and no other text is read as that result.
pub parse_cmd_result_iff :
    (s : Text) (r : CmdResult) → (parse_cmd_result s ≡ some r) ↔ (s ≡ cmd_result_str r)
parse_cmd_result_iff s r = (result_named s r, λ e. rw e (parse_result_name r))

-- A log envelope carries the level that it was made with.
pub log_level-new_log :
    {U V : Type 0} (fresh : U) (now : ℤ) (l : LogLevel) (payload : V)
    → log_level (new_log fresh now l payload) ≡ l
unfolding log_level new_log
log_level-new_log fresh now trace payload = refl
log_level-new_log fresh now debug payload = refl
log_level-new_log fresh now info payload = refl
log_level-new_log fresh now warn payload = refl
log_level-new_log fresh now error payload = refl
