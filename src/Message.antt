-- ===== src/Message.antt =====
-- common/message.go: a message of the server, and which targets it concerns.
use mulch.Prelude.{[], ℕ, Bool, true, false, not, ◌&&◌, if◌then◌else◌, ◌==◌}
use mulch.Text.{Str, lit, str_eq}

pub record Message : Type 0 where
  pub time : ℕ
  pub kind : Str
  pub target : Str
  pub message : Str

abbrev pub message_trace : Str
message_trace = lit "TRACE"

abbrev pub message_no_target : Str
message_no_target = []

abbrev pub message_all_targets : Str
message_all_targets = lit "*"

-- `MatchTarget`
unfoldable pub match_target : Str → Bool → Message → Bool
match_target target exact m =
    if exact && not (target == m.target)
    then false
    else (if not (target == m.target)
          && not (m.target == message_no_target)
          && not (target == message_all_targets)
        then false
        else true)
