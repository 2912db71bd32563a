-- ===== src/LogHistory.antt =====
-- cmd/mulchd/server/log_history.go: a doubly linked list of messages on a heap, of limited length. A
-- pointer is the address of a slot, `none` being nil; a nil or dangling pointer that is followed
-- gives `none`, a panic.
pub mod Chain
pub mod Trim
pub mod Push
pub mod Search
pub mod Bounded
mod Tests
use mulch.Prelude.{
  ℕ, zero, suc, ◌-◌, Bool, true, false, not, Option, none, some, List, [], ◌∷◌, ◌++◌, if◌then◌else◌,
  ltb, eqb, take, length, ◌==◌, nat_eq,
}
use mathlib.Core.List.{reverse}
use mulch.GoMap.{Map, get, put}
use mulch.Text.{Str, lit, str_eq}
use mulch.Message.{Message, match_target, message_all_targets}

abbrev pub max_message_len : ℕ
max_message_len = 256

pub record Slot : Type 0 where
  pub payload : Message
  pub older : Option ℕ
  pub newer : Option ℕ

pub record LogHistory : Type 0 where
  pub max_size : ℕ
  pub current_size : ℕ
  pub oldest : Option ℕ
  pub newest : Option ℕ
  pub heap : Map ℕ Slot
  pub next : ℕ

-- `NewLogHistory`
unfoldable pub new_log_history : ℕ → LogHistory
new_log_history elems = record {
  max_size = elems;
  current_size = 0;
  oldest = none;
  newest = none;
  heap = [];
  next = 0;
}

-- "truncate message if needed"; an ellipsis is three bytes.
unfoldable pub truncate : Message → Message
truncate m =
    if ltb max_message_len (length m.message)
    then record m { message = take max_message_len m.message ++ (226 ∷ 128 ∷ 166 ∷ []) }
    else m

-- "remove the oldest slot"
unfoldable pub clear_older : ℕ → Option Slot → LogHistory → Option LogHistory
clear_older q none lh = none
clear_older q (some t) lh = some (record lh {
  heap = put q (record t { older = none }) lh.heap;
  oldest = some q;
  current_size = lh.current_size - 1;
})

unfoldable pub advance_oldest : Option ℕ → LogHistory → Option LogHistory
advance_oldest none lh = none
advance_oldest (some q) lh = clear_older q (get q lh.heap) lh

unfoldable pub drop_slot : Option Slot → LogHistory → Option LogHistory
drop_slot none lh = none
drop_slot (some s) lh = advance_oldest s.newer lh

unfoldable pub remove_oldest : Option ℕ → LogHistory → Option LogHistory
remove_oldest none lh = none
remove_oldest (some o) lh = drop_slot (get o lh.heap) lh

unfoldable pub trim : LogHistory → Option LogHistory
trim lh = if ltb lh.max_size lh.current_size then remove_oldest lh.oldest lh else some lh

-- "place curr in front"
unfoldable pub in_front : Message → ℕ → Option Slot → LogHistory → Option LogHistory
in_front m n none lh = none
in_front m n (some s) lh = trim (record lh {
  heap =
      put lh.next (record { payload = m; older = some n; newer = none })
        (put n (record s { newer = some lh.next }) lh.heap);
  newest = some lh.next;
  current_size = suc lh.current_size;
  next = suc lh.next;
})

unfoldable pub push_front : Message → Option ℕ → LogHistory → Option LogHistory
push_front m none lh = none
push_front m (some n) lh = in_front m n (get n lh.heap) lh

unfoldable pub push_first : Message → LogHistory → LogHistory
push_first m lh = record lh {
  heap = put lh.next (record { payload = m; older = none; newer = none }) lh.heap;
  newest = some lh.next;
  oldest = some lh.next;
  current_size = suc lh.current_size;
  next = suc lh.next;
}

-- `Push`
unfoldable pub push : Message → LogHistory → Option LogHistory
push message lh =
    if eqb lh.current_size 0
    then some (push_first (truncate message) lh)
    else push_front (truncate message) lh.newest lh

-- `exact` of `Search`
unfoldable pub is_match : Str → Message → Bool
is_match target m = match_target target (not (target == message_all_targets)) m

-- The loop of `Search`, over the slots from `curr` on, with `left` messages still to find; its fuel is
-- the length of the list and one more.
unfoldable pub visit : Bool → Message → Option (List Message) → Option (List Message)
visit found m none = none
visit found m (some ms) = some (if found then m ∷ ms else ms)

unfoldable pub search_loop : Str → ℕ → ℕ → Option ℕ → Map ℕ Slot → Option (List Message)
search_loop target zero left curr heap = none
search_loop target (suc fuel) left none heap = some []
search_loop target (suc fuel) zero (some a) heap = some []
search_loop target (suc fuel) (suc left) (some a) heap = elim (get a heap) [
  | none ↦ none
  | some s ↦
      visit (is_match target s.payload) s.payload (
        search_loop target fuel (if is_match target s.payload then left else suc left) s.older heap)
]

unfoldable pub reversed : Option (List Message) → Option (List Message)
reversed none = none
reversed (some ms) = some (reverse ms)

-- `Search`: the messages found, the oldest first.
unfoldable pub search : ℕ → Str → LogHistory → Option (List Message)
search max_messages target lh =
    reversed (search_loop target (suc lh.current_size) max_messages lh.newest lh.heap)
