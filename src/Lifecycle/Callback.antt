-- ===== src/Lifecycle/Callback.antt =====
-- What a prepare script may add to its machine: the lines that it prints, read by `StdoutCallback` of
-- `NewVM`, cmd/mulchd/server/vm.go, and `StringIsVariable` of common/tools.go.
use mulch.Prelude.{
  Bool, true, false, not, ◌&&◌, ◌||◌, Option, none, some, List, [], ◌∷◌, ◌++◌, eqb, if◌then◌else◌,
  ◌==◌,
}
use mulch.GoMap.{Map, has, put}
use mulch.Text.{Str, lit, str_eq}
use mulch.Text.Words.{is_nil}
use mulch.Vm.{VmDoAction}
use mulch.Config.{Outside, is_valid_word}
use mulch.Config.Origins.{get_content}

unfoldable pub strip_prefix : Str → Str → Option Str
strip_prefix [] s = some s
strip_prefix (c ∷ p) [] = none
strip_prefix (c ∷ p) (d ∷ s) = if eqb c d then strip_prefix p s else none

-- `StringIsVariable`: the value, if the line sets the variable.
unfoldable pub string_is_variable : Str → Str → Option Str
string_is_variable line name = strip_prefix (name ++ lit "=") line

-- The tags and actions of the machine, the action that is being described, and `errDoAction`.
pub record Reading : Type 0 where
  pub tags : Map Str Bool
  pub actions : Map Str VmDoAction
  pub current : VmDoAction
  pub failed : Bool

abbrev pub empty_action : VmDoAction
empty_action = record {
  name = [];
  script_url = [];
  user = [];
  description = [];
  from_config = false;
}

unfoldable pub fail_reading : Reading → Reading
fail_reading r = record r { failed = true }

-- `VMTagFromScript` is false.
unfoldable pub tag_add : Option Str → Reading → Reading
unfolding fail_reading
tag_add none r = r
tag_add (some value) r =
    if not (is_valid_word value) || has value r.tags
    then fail_reading r
    else record r { tags = put value false r.tags }

unfoldable pub action_name : Option Str → Reading → Reading
action_name none r = r
action_name (some value) r = record r { current = record r.current { name = value } }

unfoldable pub action_user : Option Str → Reading → Reading
action_user none r = r
action_user (some value) r = record r { current = record r.current { user = value } }

unfoldable pub action_description : Option Str → Reading → Reading
action_description none r = r
action_description (some value) r = record r { current = record r.current { description = value } }

unfoldable pub script_if : Str → Option (Option Str) → Reading → Reading
unfolding fail_reading
script_if value none r = fail_reading r
script_if value (some file) r = record r { current = record r.current { script_url = value } }

unfoldable pub action_script : Outside → Option Str → Reading → Reading
unfolding script_if
action_script out none r = r
action_script out (some value) r = script_if value (get_content out value) r

-- Name, user and script are given, the name is a word, and no action has it.
unfoldable pub is_complete : Reading → Bool
is_complete r =
    not (is_nil r.current.name || is_nil r.current.user || is_nil r.current.script_url)
    && is_valid_word r.current.name
    && not (has r.current.name r.actions)

unfoldable pub commit_action : Option Str → Reading → Reading
unfolding fail_reading is_complete
commit_action none r = r
commit_action (some value) r =
    if value == lit "commit" && is_complete r
    then record r {
      actions = put r.current.name (record r.current { from_config = false }) r.actions;
      current = empty_action;
    }
    else fail_reading r

-- `if errDoAction != nil { return }`: after each step that can fail, the code returns at once.
unfoldable pub unless_failed : (Reading → Reading) → Reading → Reading
unless_failed f r = if r.failed then r else f r

-- `StdoutCallback` on one line
unfoldable pub read_line : Outside → Str → Reading → Reading
unfolding unless_failed
read_line out line r0 =
    let r1 = unless_failed (tag_add (string_is_variable line (lit "_MULCH_TAG_ADD"))) r0 in
    let r2 = unless_failed (action_name (string_is_variable line (lit "_MULCH_ACTION_NAME"))) r1 in
    let r3 =
      unless_failed (action_script out (string_is_variable line (lit "_MULCH_ACTION_SCRIPT"))) r2 in
    let r4 = unless_failed (action_user (string_is_variable line (lit "_MULCH_ACTION_USER"))) r3 in
    let r5 =
      unless_failed (action_description (string_is_variable line (lit "_MULCH_ACTION_DESCRIPTION")))
        r4 in
    unless_failed (commit_action (string_is_variable line (lit "_MULCH_ACTION"))) r5

unfoldable pub read_lines : Outside → List Str → Reading → Reading
read_lines out [] r = r
read_lines out (line ∷ lines) r = read_lines out lines (read_line out line r)
