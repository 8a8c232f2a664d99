-- ===== src/Observable/Binding/Tests.antt =====
-- observable/binding.go: tests of a binding with a transformer, and the theorem at a concrete input.
use zugoui.Prelude.{
  Text, text_eq, codes, List, [], Bool, true, false, not, Option, none, some, if◌then◌else◌, ◌≡◌,
  ◌≢◌, refl,
}
use zugoui.Prelude.Dotted.{LacksDot}
use zugoui.Observable.PathObserver.{
  Node, plain, nil, object, Kids, no_kids, kid, value_at, watch, no_downs,
}
use zugoui.Observable.Binding.{
  Side, Xform, Binding, Made, bound, unknown_transformer, new_binding, source_set, dest_set,
  release,
}
use zugoui.Observable.Binding.Tracking.{IsLeaf}

-- a door that is open, and a lock that shows whether it is shut
abbrev door : Text
door = codes "door"

abbrev open_key : Text
open_key = codes "open"

abbrev lock : Text
lock = codes "lock"

abbrev flipped : Node Bool → Node Bool
flipped (plain b) = plain (not b)
flipped nil = nil
flipped (object kids) = nil

abbrev flip : Xform Bool
flip = record { get = λ n. flipped n; back = some (λ n. flipped n) }

abbrev named : Text → Option (Xform Bool)
named name = if text_eq name (codes "not") then some flip else none

abbrev leaf_of : Bool → Node Bool
leaf_of is_open = object (kid open_key (plain is_open) no_kids)

abbrev house : Kids Bool
house = kid door (leaf_of true) no_kids

abbrev made_as : Text → Made Bool
made_as name = new_binding named true (codes "door.open") house lock no_kids name

abbrev no_side : Side Bool
no_side = record { path = []; kids = no_kids; seen = watch [] [] [] no_downs }

abbrev first : Made Bool → Binding Bool
first (bound b) = b
first (unknown_transformer name) = record {
  source = no_side;
  dest = no_side;
  sbind = none;
  dbind = none;
}

abbrev start : Binding Bool
start = first (made_as (codes "not"))

unknown_test : made_as (codes "nor") ≡ unknown_transformer (codes "nor")
unfolding new_binding text_eq
unknown_test = refl

abbrev shown_lock : Binding Bool → Node Bool
shown_lock b = value_at lock (Side.kids (Binding.dest b))

start_test : shown_lock start ≡ plain false
unfolding value_at new_binding text_eq zugoui.Prelude.Dotted.cut
start_test = refl

-- another door, which is shut
abbrev shut : Binding Bool
shut = source_set [] door (leaf_of false) start

shut_test : shown_lock shut ≡ plain true
unfolding value_at source_set new_binding text_eq zugoui.Prelude.Dotted.cut
    zugoui.Observable.KeyPath.join_key_path
shut_test = refl

-- the lock of that door is opened
abbrev unlocked : Binding Bool
unlocked = dest_set [] lock (plain false) shut

unlocked_test : value_at door (Side.kids (Binding.source unlocked)) ≡ leaf_of true
unfolding value_at dest_set source_set new_binding text_eq zugoui.Prelude.Dotted.cut
    zugoui.Observable.KeyPath.join_key_path
unlocked_test = refl

-- a binding that is released sets nothing
released_test : shown_lock (source_set [] door (leaf_of false) (release start)) ≡ plain false
unfolding value_at source_set release new_binding text_eq zugoui.Prelude.Dotted.cut
released_test = refl

-- a value in the place of the source is not notified for the key path below it
replaced_test : shown_lock (source_set [] door (plain false) start) ≡ plain false
unfolding value_at source_set new_binding text_eq zugoui.Prelude.Dotted.cut
    zugoui.Observable.KeyPath.join_key_path
replaced_test = refl

abbrev flipped_values : (n : Node Bool) → IsLeaf n → IsLeaf (flipped n)
flipped_values (plain b) l = tt
flipped_values nil l = tt
flipped_values (object kids) l = tt
