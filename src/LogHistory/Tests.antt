-- ===== src/LogHistory/Tests.antt =====
-- A history of two messages, run on three.
use mulch.Prelude.{◌≡◌, refl, none, some, List, [], ◌∷◌, take, filter}
use mathlib.Core.List.{reverse}
use mulch.Text.{lit}
use mulch.Message.{Message}
use mulch.GoMap.{get, put}
use mulch.Text.{str_beq}
use mulch.Message.{match_target}
use mulch.LogHistory.{
  LogHistory, new_log_history, truncate, clear_older, advance_oldest, drop_slot, remove_oldest,
  trim, in_front, push_front, push_first, push, is_match, visit, search_loop, reversed, search,
}
use mulch.LogHistory.Bounded.{push_all, kept, push_all-search}

abbrev first : Message
first = record { time = 1; kind = lit "INFO"; target = lit "vm1"; message = lit "up" }

abbrev second : Message
second = record { time = 2; kind = lit "INFO"; target = lit "vm2"; message = lit "up" }

abbrev third : Message
third = record { time = 3; kind = lit "INFO"; target = lit "vm1"; message = lit "down" }

abbrev three : List Message
three = first ∷ second ∷ third ∷ []

push_all-search_example :
    (lh : LogHistory) × (push_all three (new_log_history 2) ≡ some lh)
    × (search 5 (lit "vm1") lh
        ≡ some (reverse (take 5 (filter (is_match (lit "vm1")) (kept 2 three)))))
push_all-search_example = push_all-search three 2 5 (lit "vm1")

-- The first message is gone: only the third is found.
search-three :
    elim (push_all three (new_log_history 2)) [ none ↦ none | some lh ↦ search 5 (lit "vm1") lh ]
    ≡ some (third ∷ [])
unfolding new_log_history truncate clear_older advance_oldest drop_slot remove_oldest trim in_front
    push_front push_first push is_match visit search_loop reversed search match_target get put
    str_beq
search-three = refl
