-- ===== src/Lifecycle/Added.antt =====
-- What the scripts of a machine can add to it, `StdoutCallback` of cmd/mulchd/server/vm.go.
use mulch.Prelude.{
  ◌≡◌, refl, sym, ◌∙◌, ap, subst, ◌⊎◌, inl, inr, Bool, true, false, not, ◌&&◌, ◌||◌, Option, none,
  some, List, [], ◌∷◌, arith, Bool-cases, ◌==◌, if◌then◌else◌,
}
use mulch.GoMap.{Map, get, has, put}
use mulch.GoMap.Laws.{get-put, has-put, has-get}
use mulch.Text.{Str, lit, str_eq, str_beq_iff}
use mulch.Text.Words.{is_nil}
use mulch.Vm.{VmDoAction}
use mulch.Config.{Outside, is_valid_word}
use mulch.Config.Origins.{get_content}
use mulch.Lifecycle.Callback.{
  Reading, empty_action, string_is_variable, fail_reading, tag_add, action_name, action_user,
  action_description, action_script, script_if, is_complete, commit_action, unless_failed,
  read_line, read_lines,
}

-- No tag and no action is lost or changed, and each action that is new stands under its own name, a
-- word, with a user and a script, and is marked as a script's.
pub record Extends (r s : Reading) : Type 0 where
  pub tags : (k : Str) (b : Bool) → get k r.tags ≡ some b → get k s.tags ≡ some b
  pub actions : (k : Str) (a : VmDoAction) → get k r.actions ≡ some a → get k s.actions ≡ some a
  pub new_tags :
      (k : Str)
      → has k s.tags ≡ true
      → (has k r.tags ≡ true) ⊎ ((is_valid_word k ≡ true) × (get k s.tags ≡ some false))
  pub new_actions :
      (k : Str) (a : VmDoAction)
      → get k s.actions ≡ some a
      → (get k r.actions ≡ some a)
        ⊎ ((a.name ≡ k)
            × (is_valid_word k ≡ true)
            × (is_nil a.user ≡ false)
            × (is_nil a.script_url ≡ false)
            × (a.from_config ≡ false))

Extends-refl : (r : Reading) → Extends r r
Extends-refl r = record {
  tags = λ k b h. h;
  actions = λ k a h. h;
  new_tags = λ k h. inl h;
  new_actions = λ k a h. inl h;
}

Extends-trans : (r s t : Reading) → Extends r s → Extends s t → Extends r t
Extends-trans r s t p q = record {
  tags = λ k b h. q.tags k b (p.tags k b h);
  actions = λ k a h. q.actions k a (p.actions k a h);
  new_tags = λ k h. elim (q.new_tags k h) [
    | inr n ↦ inr n
    | inl o ↦ elim (p.new_tags k o) [ inl b ↦ inl b | inr n ↦ inr (n.0, q.tags k false n.1) ]
  ];
  new_actions = λ k a h. elim (q.new_actions k a h) [ inr n ↦ inr n | inl o ↦ p.new_actions k a o ];
}

-- A step that changes neither tags nor actions.
same-Extends : (r s : Reading) → r.tags ≡ s.tags → r.actions ≡ s.actions → Extends r s
same-Extends r s p q = record {
  tags = λ k b h. ap (get k) (sym p) ∙ h;
  actions = λ k a h. ap (get k) (sym q) ∙ h;
  new_tags = λ k h. inl (ap (has k) p ∙ h);
  new_actions = λ k a h. inl (ap (get k) q ∙ h);
}

fail_reading-Extends : (r : Reading) → Extends r (fail_reading r)
unfolding fail_reading
fail_reading-Extends r = same-Extends r (record r { failed = true }) refl refl

get-put_tag :
    (k j : Str) (v : Bool) (m : Map Str Bool)
    → get j (put k v m) ≡ (if k == j then some v else get j m)
get-put_tag k j v m = get-put k j v m

has-put_tag :
    (k j : Str) (v : Bool) (m : Map Str Bool)
    → has j (put k v m) ≡ (if k == j then true else has j m)
has-put_tag k j v m = has-put k j v m

get-put_action :
    (k j : Str) (v : VmDoAction) (m : Map Str VmDoAction)
    → get j (put k v m) ≡ (if k == j then some v else get j m)
get-put_action k j v m = get-put k j v m

-- A new tag
put_tag-Extends :
    (value : Str) (r : Reading)
    → is_valid_word value ≡ true
    → has value r.tags ≡ false
    → Extends r (record r { tags = put value false r.tags })
put_tag-Extends value r v n = record {
  tags = λ k b h.
      ground
        (arith, h, n, get-put_tag value k false r.tags, has-get value r.tags, str_beq_iff value k);
  actions = λ k a h. h;
  new_tags = λ k h. ground (
    arith,
    h,
    v,
    get-put_tag value k false r.tags,
    has-put_tag value k false r.tags,
    str_beq_iff value k,
  );
  new_actions = λ k a h. inl h;
}

tag_add-Extends : (o : Option Str) (r : Reading) → Extends r (tag_add o r)
unfolding tag_add
tag_add-Extends none r = Extends-refl r
tag_add-Extends (some value) r = elim (Bool-cases (not (is_valid_word value) || has value r.tags)) [
  | inl e ↦ rw e (fail_reading-Extends r)
  | inr e ↦ rw e (put_tag-Extends value r (ground (arith, e)) (ground (arith, e)))
]

-- A step on the action that is being described.
current-Extends : (r : Reading) (a : VmDoAction) → Extends r (record r { current = a })
current-Extends r a = same-Extends r (record r { current = a }) refl refl

action_name-Extends : (o : Option Str) (r : Reading) → Extends r (action_name o r)
unfolding action_name
action_name-Extends none r = Extends-refl r
action_name-Extends (some v) r = current-Extends r (record r.current { name = v })

action_user-Extends : (o : Option Str) (r : Reading) → Extends r (action_user o r)
unfolding action_user
action_user-Extends none r = Extends-refl r
action_user-Extends (some v) r = current-Extends r (record r.current { user = v })

action_description-Extends : (o : Option Str) (r : Reading) → Extends r (action_description o r)
unfolding action_description
action_description-Extends none r = Extends-refl r
action_description-Extends (some v) r = current-Extends r (record r.current { description = v })

script_if-Extends : (v : Str) (o : Option (Option Str)) (r : Reading) → Extends r (script_if v o r)
unfolding script_if
script_if-Extends v none r = fail_reading-Extends r
script_if-Extends v (some f) r = current-Extends r (record r.current { script_url = v })

action_script-Extends :
    (out : Outside) (o : Option Str) (r : Reading) → Extends r (action_script out o r)
unfolding action_script
action_script-Extends out none r = Extends-refl r
action_script-Extends out (some v) r = script_if-Extends v (get_content out v) r

abbrev IsNew : Str → VmDoAction → Type 0
IsNew k a =
    (a.name ≡ k)
    × (is_valid_word k ≡ true)
    × (is_nil a.user ≡ false)
    × (is_nil a.script_url ≡ false)
    × (a.from_config ≡ false)

some_action : (a b : VmDoAction) → some a ≡ some b → a ≡ b
some_action a b h = cc

put_action-Extends :
    (a c : VmDoAction) (r : Reading)
    → IsNew a.name a
    → has a.name r.actions ≡ false
    → Extends r (record r { actions = put a.name a r.actions; current = c })
put_action-Extends a c r v n = record {
  tags = λ k b h. h;
  actions = λ k b h. ground (
    arith,
    h,
    n,
    get-put_action a.name k a r.actions,
    has-get a.name r.actions,
    str_beq_iff a.name k,
  );
  new_tags = λ k h. inl h;
  new_actions = λ k b h. elim (Bool-cases (a.name == k)) [
    | inr e ↦ inl (ground (arith, h, e, get-put_action a.name k a r.actions))
    | inl e ↦
        let same : a ≡ b =
          some_action a b (ground (arith, h, e, get-put_action a.name k a r.actions)) in
        let named : a.name ≡ k = (str_beq_iff a.name k).0 e in
        inr (subst (λ x. IsNew k x) same (subst (λ x. IsNew x a) named v))
  ];
}

is_complete-IsNew :
    (r : Reading)
    → is_complete r ≡ true
    → IsNew r.current.name (record r.current { from_config = false })
      × (has r.current.name r.actions ≡ false)
unfolding is_complete
is_complete-IsNew r h =
    ((refl, ground (arith, h), ground (arith, h), ground (arith, h), refl), ground (arith, h))

commit_action-Extends : (o : Option Str) (r : Reading) → Extends r (commit_action o r)
unfolding commit_action
commit_action-Extends none r = Extends-refl r
commit_action-Extends (some v) r = elim (Bool-cases (v == lit "commit" && is_complete r)) [
  | inr e ↦ rw e (fail_reading-Extends r)
  | inl e ↦
      let c = is_complete-IsNew r (ground (arith, e)) in
      rw e (put_action-Extends (record r.current { from_config = false }) empty_action r c.0 c.1)
]

if-Extends :
    (b : Bool) (r s t : Reading) → Extends r s → Extends r t → Extends r (if b then s else t)
if-Extends true r s t h k = h
if-Extends false r s t h k = k

unless_failed-Extends :
    (f : Reading → Reading) (r : Reading)
    → ((s : Reading) → Extends s (f s))
    → Extends r (unless_failed f r)
unfolding unless_failed
unless_failed-Extends f r k = if-Extends r.failed r r (f r) (Extends-refl r) (k r)

-- Two steps
then-Extends :
    (f : Reading → Reading) (r s : Reading)
    → ((t : Reading) → Extends t (f t))
    → Extends r s
    → Extends r (unless_failed f s)
then-Extends f r s k h = Extends-trans r s (unless_failed f s) h (unless_failed-Extends f s k)

read_line-Extends : (out : Outside) (line : Str) (r : Reading) → Extends r (read_line out line r)
unfolding read_line
read_line-Extends out line r =
    then-Extends _ r _ (commit_action-Extends (string_is_variable line (lit "_MULCH_ACTION"))) (
      then-Extends _ r _
        (action_description-Extends (string_is_variable line (lit "_MULCH_ACTION_DESCRIPTION")))
        (then-Extends _ r _
          (action_user-Extends (string_is_variable line (lit "_MULCH_ACTION_USER")))
          (then-Extends _ r _
            (action_script-Extends out (string_is_variable line (lit "_MULCH_ACTION_SCRIPT")))
            (then-Extends _ r _
              (action_name-Extends (string_is_variable line (lit "_MULCH_ACTION_NAME")))
              (unless_failed-Extends _ r
                (tag_add-Extends (string_is_variable line (lit "_MULCH_TAG_ADD"))))))))

-- Whatever the scripts print: every tag and every action that the machine has is kept with its value; a tag that is new is a word, and marked as a script's; an action that is new stands under its own name, a word, has a user and a script, and is marked as a script's.
pub read_lines-Extends :
    (out : Outside) (lines : List Str) (r : Reading) → Extends r (read_lines out lines r)
unfolding read_lines
read_lines-Extends out [] r = Extends-refl r
read_lines-Extends out (line ∷ lines) r =
    Extends-trans r (read_line out line r) (read_lines out lines (read_line out line r))
      (read_line-Extends out line r) (read_lines-Extends out lines (read_line out line r))
