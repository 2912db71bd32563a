-- ===== src/Config/Scripts.antt =====
-- The scripts, actions and tags of cmd/mulchd/server/vm_config.go.
use mulch.Prelude.{
  ◌*◌, Bool, true, not, ◌||◌, ◌&&◌, Option, none, some, List, [], ◌∷◌, ◌++◌, eqb, length, ◌==◌,
  if◌then◌else◌, Outcome, ok, err, ◌>>=◌,
}
use mulch.GoMap.{Map, has, put}
use mulch.Text.{Str, lit, str_eq}
use mulch.Text.Decimal.{ℤ}
use mulch.Text.Words.{is_nil, is_valid_name}
use mulch.Vm.{VmConfigScript, VmDoAction}
use mulch.Config.{ConfigError, Outside, TomlVmDoAction, second, at_least, is_valid_word, ensure}
use mulch.Config.Origins.{Origin, get_content, get_origin_from_path, scheme_or_nil}

unfoldable pub check_signature : Option (Option Str) → Outcome ConfigError Unit
check_signature none = err ConfigError.no_script
check_signature (some none) = err ConfigError.short_script
check_signature (some (some signature)) =
    if not (eqb (length signature) 2)
    then err ConfigError.short_script
    else if signature == lit "#!"
    then ok tt
    else err ConfigError.no_shebang

-- `vmCheckScriptURL`
unfoldable pub vm_check_script_url : Outside → Str → Outcome ConfigError Unit
vm_check_script_url out script_url = check_signature (get_content out script_url)

-- The text before and after the first `@`.
unfoldable pub cut_at : Str → Option (Str × Str)
cut_at [] = none
cut_at (c ∷ s) =
    let rest : Option (Str × Str) = elim (cut_at s) [
      | none ↦ none
      | some (before, after) ↦ some (c ∷ before, after)
    ] in
    if eqb c b'@' then some ([], s) else rest

abbrev pub origin_name : Origin → Str
origin_name (origin, _, _) = origin

-- No scheme and no origin: the prefix is put in front; an unknown origin is no origin here.
unfoldable pub script_url_of : Outside → Str → Str → Str
script_url_of out prefix_url script_name =
    if is_nil (scheme_or_nil (out.parse_scheme script_name))
      && is_nil (origin_name (get_origin_from_path out.origins script_name))
    then prefix_url ++ script_name
    else script_name

unfoldable pub script_of : Outside → Str → Option (Str × Str) → Outcome ConfigError VmConfigScript
script_of out prefix_url none = err ConfigError.no_user
script_of out prefix_url (some (user, script_name)) =
    let script_url : Str = script_url_of out prefix_url script_name in
    ensure (is_valid_name user) ConfigError.bad_user >>= λ _.
    vm_check_script_url out script_url >>= λ _.
    ok (record { script_url = script_url; as_user = user })

-- `vmConfigGetScript`
unfoldable pub vm_config_get_script : Outside → Str → Str → Outcome ConfigError VmConfigScript
vm_config_get_script out prefix_url t_script = script_of out prefix_url (cut_at t_script)

unfoldable pub scripts_of : Outside → Str → List Str → Outcome ConfigError (List VmConfigScript)
scripts_of out prefix_url [] = ok []
scripts_of out prefix_url (line ∷ lines) = vm_config_get_script out prefix_url line >>= λ script.
    scripts_of out prefix_url lines >>= λ scripts. ok (script ∷ scripts)

-- `vmConfigGetDoAction`
unfoldable pub vm_config_get_do_action : Outside → TomlVmDoAction → Outcome ConfigError VmDoAction
vm_config_get_do_action out t =
    ensure (not (is_nil t.name) && is_valid_word t.name) ConfigError.bad_action >>= λ _.
    vm_check_script_url out t.script >>= λ _. ok (record {
      name = t.name;
      script_url = t.script;
      user = t.user;
      description = t.description;
      from_config = true;
    })

unfoldable pub actions_of : Outside → List TomlVmDoAction → Outcome ConfigError (List VmDoAction)
actions_of out [] = ok []
actions_of out (t ∷ ts) = vm_config_get_do_action out t >>= λ action.
    actions_of out ts >>= λ actions. ok (action ∷ actions)

-- "build a map from the actions array"
unfoldable pub action_map :
    List VmDoAction → Map Str VmDoAction → Outcome ConfigError (Map Str VmDoAction)
action_map [] m = ok m
action_map (action ∷ actions) m =
    let rest = action_map actions (put action.name action m) in
    if has action.name m then err ConfigError.duplicated_action else rest

-- "build a map of tags"
unfoldable pub tags_of : List Str → Map Str Bool → Outcome ConfigError (Map Str Bool)
tags_of [] m = ok m
tags_of (tag ∷ tags) m =
    let rest = tags_of tags (put tag true m) in
    if is_valid_word tag then rest else err ConfigError.bad_tag

unfoldable pub is_auto_rebuild : Str → Bool
is_auto_rebuild s = is_nil s || s == lit "daily" || s == lit "weekly" || s == lit "monthly"

unfoldable pub timeout_value : Option ℤ → Outcome ConfigError ℤ
timeout_value none = err ConfigError.bad_timeout
timeout_value (some duration) =
    if at_least (15 * second) duration then ok duration else err ConfigError.small_timeout
