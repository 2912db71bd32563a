-- ===== src/VmStates/Tests.antt =====
-- Two machines, one of them up.
use mulch.Prelude.{◌≡◌, refl, Bool, Option, none, some, [], ◌∷◌, if◌then◌else◌, ◌==◌}
use mathlib.Core.List.{◌++◌}
use mulch.GoMap.{get, put}
use mulch.Text.{Str, lit, str_eq, str_beq}
use mulch.Disk.{done}
use mulch.VmName.{VmName, id}
use mulch.VmStates.{
  VmStateDatabase, update, new_states, same_entries, deep_equal, compare_states, save,
}
use mulch.VmStates.Update.{has_id, text_of, update-ok}

abbrev web : VmName
web = record { name = lit "web"; revision = 0 }

abbrev db : VmName
db = record { name = lit "db"; revision = 0 }

abbrev only_web : Str → Option Bool
only_web domain = some (domain == lit "mulch-web")

abbrev cold : VmStateDatabase
cold = record { db = []; file = some []; cycles = 0 }

no_error : (update (lit "mulch-") only_web (web ∷ db ∷ []) done cold).1 ≡ none
unfolding update new_states compare_states deep_equal same_entries save put get str_beq id
    mulch.VmName.libvirt_domain_name
no_error = refl

update-ok_example :
    (get (lit "web") (update (lit "mulch-") only_web (web ∷ db ∷ []) done cold).0.db ≡ (
      if has_id (lit "web") (web ∷ db ∷ [])
      then text_of (only_web (lit "mulch-" ++ lit "web"))
      else none))
    × ((update (lit "mulch-") only_web (web ∷ db ∷ []) done cold).0.file
        ≡ some (update (lit "mulch-") only_web (web ∷ db ∷ []) done cold).0.db)
update-ok_example =
    update-ok (lit "mulch-") only_web (web ∷ db ∷ []) done cold (lit "web") tt refl no_error
