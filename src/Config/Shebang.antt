-- ===== src/Config/Shebang.antt =====
-- The scripts, actions and tags that `NewVMConfigFromTomlReader` accepts.
use mulch.Prelude.{
  ◌≡◌, refl, subst, inl, inr, Bool, true, false, not, ◌&&◌, Option, none, some, List, [], ◌∷◌,
  arith, All, Bool-cases, ok,
}
use mulch.GoMap.{Map, has, put}
use mulch.GoMap.Laws.{IsMap, put-IsMap, Entries, put-Entries}
use mulch.Text.{Str, lit, str_eq, str_beq_iff}
use mulch.Text.Words.{is_nil, is_valid_name}
use mulch.VmPort.Bounds.{bind-ok, ok-injective}
use mulch.Vm.{VmConfigScript, VmDoAction}
use mulch.Config.{TomlVmConfig, TomlVmDoAction, ConfigError, Outside, ensure, is_valid_word}
use mulch.Config.Origins.{get_content}
use mulch.Config.Scripts.{
  check_signature, vm_check_script_url, cut_at, script_url_of, script_of, vm_config_get_script,
  scripts_of, vm_config_get_do_action, actions_of, action_map, tags_of,
}
use mulch.Config.Reader.{all_scripts, do_actions_of}

pub ensure-ok : (b : Bool) (e : ConfigError) → ensure b e ≡ ok tt → b ≡ true
ensure-ok true e h = refl
ensure-ok false e h = absurd (ground (arith, h))

-- A script that can be read, starts with a shebang and is run by a user of a valid name.
abbrev pub IsScript : Outside → VmConfigScript → Type 0
IsScript out s =
    (get_content out s.script_url ≡ some (some (lit "#!"))) × (is_valid_name s.as_user ≡ true)

check_signature-ok :
    (o : Option (Option Str)) → check_signature o ≡ ok tt → o ≡ some (some (lit "#!"))
unfolding check_signature
check_signature-ok none h = absurd (ground (arith, h))
check_signature-ok (some none) h = absurd (ground (arith, h))
check_signature-ok (some (some s)) h = ground (arith, h, str_beq_iff s (lit "#!"))

script_of-ok :
    (out : Outside) (prefix : Str) (o : Option (Str × Str)) (s : VmConfigScript)
    → script_of out prefix o ≡ ok s
    → IsScript out s
unfolding script_of vm_check_script_url
script_of-ok out prefix none s h = absurd (ground (arith, h))
script_of-ok out prefix (some (user, name)) s h =
    let url : Str = script_url_of out prefix name in
    let first = bind-ok (ensure (is_valid_name user) ConfigError.bad_user) _ s h in
    let second = bind-ok (vm_check_script_url out url) _ s first.2 in
    let made : VmConfigScript = record { script_url = url; as_user = user } in
    subst (IsScript out) (ok-injective {E = ConfigError} made s second.2) (
      check_signature-ok (get_content out url) second.1,
      ensure-ok (is_valid_name user) ConfigError.bad_user first.1,
    )

scripts_of-ok :
    (out : Outside) (prefix : Str) (lines : List Str) (ss : List VmConfigScript)
    → scripts_of out prefix lines ≡ ok ss
    → All (IsScript out) ss
unfolding scripts_of vm_config_get_script
scripts_of-ok out prefix [] ss h =
    subst (All (IsScript out)) (ok-injective {E = ConfigError} [] ss h) tt
scripts_of-ok out prefix (line ∷ lines) ss h =
    let first = bind-ok (vm_config_get_script out prefix line) _ ss h in
    let second = bind-ok (scripts_of out prefix lines) _ ss first.2 in
    subst (All (IsScript out)) (ok-injective {E = ConfigError} (first.0 ∷ second.0) ss second.2) (
      script_of-ok out prefix (cut_at line) first.0 first.1,
      scripts_of-ok out prefix lines second.0 second.1,
    )

-- A do-action that the configuration gives: its name, and a script that can be read.
abbrev pub IsAction : Outside → VmDoAction → Type 0
IsAction out a =
    (is_nil a.name ≡ false)
    × (is_valid_word a.name ≡ true)
    × (a.from_config ≡ true)
    × (get_content out a.script_url ≡ some (some (lit "#!")))

get_do-IsAction :
    (out : Outside) (t : TomlVmDoAction) (a : VmDoAction)
    → vm_config_get_do_action out t ≡ ok a
    → IsAction out a
unfolding vm_config_get_do_action vm_check_script_url
get_do-IsAction out t a h =
    let first =
      bind-ok (ensure (not (is_nil t.name) && is_valid_word t.name) ConfigError.bad_action) _ a h in
    let second = bind-ok (vm_check_script_url out t.script) _ a first.2 in
    let valid =
      ensure-ok (not (is_nil t.name) && is_valid_word t.name) ConfigError.bad_action first.1 in
    let made : VmDoAction = record {
      name = t.name;
      script_url = t.script;
      user = t.user;
      description = t.description;
      from_config = true;
    } in
    subst (IsAction out) (ok-injective {E = ConfigError} made a second.2) (
      ground (arith, valid),
      ground (arith, valid),
      refl,
      check_signature-ok (get_content out t.script) second.1,
    )

actions_of-ok :
    (out : Outside) (ts : List TomlVmDoAction) (actions : List VmDoAction)
    → actions_of out ts ≡ ok actions
    → All (IsAction out) actions
unfolding actions_of
actions_of-ok out [] as_list h =
    subst (All (IsAction out)) (ok-injective {E = ConfigError} [] as_list h) tt
actions_of-ok out (t ∷ ts) as_list h =
    let first = bind-ok (vm_config_get_do_action out t) _ as_list h in
    let second = bind-ok (actions_of out ts) _ as_list first.2 in
    subst (All (IsAction out))
      (ok-injective {E = ConfigError} (first.0 ∷ second.0) as_list second.2)
      (get_do-IsAction out t first.0 first.1, actions_of-ok out ts second.0 second.1)

-- Each action stands once, under its own name.
abbrev pub AreActions : Outside → Map Str VmDoAction → Type 0
AreActions out m = IsMap m × Entries (λ k a. (a.name ≡ k) × IsAction out a) m

action_map-ok :
    (out : Outside) (actions : List VmDoAction) (m m' : Map Str VmDoAction)
    → All (IsAction out) actions
    → AreActions out m
    → action_map actions m ≡ ok m'
    → AreActions out m'
unfolding action_map
action_map-ok out [] m m' a i h = subst (AreActions out) (ok-injective {E = ConfigError} m m' h) i
action_map-ok out (action ∷ actions) m m' a i h = elim (Bool-cases (has action.name m)) [
  | inl e ↦ absurd (ground (arith, h, e))
  | inr e ↦
      let next : AreActions out (put action.name action m) = (
        put-IsMap action.name action m i.0,
        put-Entries (λ k b. (b.name ≡ k) × IsAction out b) action.name action m (refl, a.0) i.1,
      ) in
      action_map-ok out actions (put action.name action m) m' a.1 next (ground (arith, h, e))
]

pub do_actions_of-ok :
    (out : Outside) (t : TomlVmConfig) (m : Map Str VmDoAction)
    → do_actions_of out t ≡ ok m
    → AreActions out m
unfolding do_actions_of
do_actions_of-ok out t m h =
    let first = bind-ok (actions_of out t.do_actions) _ m h in
    action_map-ok out first.0 [] m (actions_of-ok out t.do_actions first.0 first.1) (tt, tt) first.2

-- The tags are those of the configuration, and words.
abbrev pub AreTags : Map Str Bool → Type 0
AreTags = Entries (λ tag from_config. (is_valid_word tag ≡ true) × (from_config ≡ true))

pub tags_of-ok :
    (tags : List Str) (m m' : Map Str Bool) → AreTags m → tags_of tags m ≡ ok m' → AreTags m'
unfolding tags_of
tags_of-ok [] m m' i h = subst AreTags (ok-injective {E = ConfigError} m m' h) i
tags_of-ok (tag ∷ tags) m m' i h = elim (Bool-cases (is_valid_word tag)) [
  | inr e ↦ absurd (ground (arith, h, e))
  | inl e ↦
      tags_of-ok tags (put tag true m) m'
        (put-Entries (λ k b. (is_valid_word k ≡ true) × (b ≡ true)) tag true m (e, refl) i)
        (ground (arith, h, e))
]

pub all_scripts-ok :
    (out : Outside) (t : TomlVmConfig)
    (ss : List VmConfigScript × List VmConfigScript × List VmConfigScript × List VmConfigScript)
    → all_scripts out t ≡ ok ss
    → All (IsScript out) ss.0
      × All (IsScript out) ss.1
      × All (IsScript out) ss.2
      × All (IsScript out) ss.3
unfolding all_scripts
all_scripts-ok out t ss h =
    let a = bind-ok (scripts_of out t.prepare_prefix_url t.prepare) _ ss h in
    let b = bind-ok (scripts_of out t.install_prefix_url t.install) _ ss a.2 in
    let c = bind-ok (scripts_of out t.backup_prefix_url t.backup) _ ss b.2 in
    let d = bind-ok (scripts_of out t.restore_prefix_url t.restore) _ ss c.2 in
    subst
      (λ r.
        All (IsScript out) r.0
        × All (IsScript out) r.1
        × All (IsScript out) r.2
        × All (IsScript out) r.3)
      (ok-injective {E = ConfigError} (a.0, b.0, c.0, d.0) ss d.2)
      (
        scripts_of-ok out t.prepare_prefix_url t.prepare a.0 a.1,
        scripts_of-ok out t.install_prefix_url t.install b.0 b.1,
        scripts_of-ok out t.backup_prefix_url t.backup c.0 c.1,
        scripts_of-ok out t.restore_prefix_url t.restore d.0 d.1,
      )
