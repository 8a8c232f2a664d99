-- ===== src/Observable/Binding.antt =====
-- observable/binding.go: a binding of a key path of one source to a key path of another.
--
-- The two sources share no source below them. The observers of a PathObserver get the notifications
-- of their own key path, and those with an empty key path all of them. A transformer is given by
-- its functions.

pub mod Paths
pub mod Tracking
pub mod Hearing
pub mod Delivery
pub mod Assigning
pub mod Sides
pub mod Synced
mod Tests
use zugoui.Prelude.{
  Text, text_eq, List, [], ◌∷◌, Bool, true, false, ◌||◌, Option, none, some, if◌then◌else◌,
}
use zugoui.Observable.PathObserver.{
  Node, Kids, Watch, watch, no_downs, Notices, new_path_observer, write, deliver,
}
use zugoui.Observable.PathObserver.Access.{value_of, set_path}

-- A source with its PathObserver, and the key path of the binding.
pub record Side (V : Type 0) : Type 0 where
  pub path : Text
  pub kids : Kids V
  pub seen : Watch

-- A transformer; without a function for the way back it is not mutable.
pub record Xform (V : Type 0) : Type 0 where
  pub get : Node V → Node V
  pub back : Option (Node V → Node V)

-- Binding: the functions of the two directions, each if it is there.
pub record Binding (V : Type 0) : Type 0 where
  pub source : Side V
  pub dest : Side V
  pub sbind : Option (Node V → Node V)
  pub dbind : Option (Node V → Node V)

-- What NewBinding returns.
pub data Made (V : Type 0) : Type 0 where
  bound : Binding V → Made V
  unknown_transformer : Text → Made V

-- clear(o.down)
unseen : Watch → Watch
unseen (watch prefix at suffix downs) = watch prefix at suffix no_downs

module _ {V : Type 0} where
  -- the function of the transformer, or that of newBinding without one
  unfoldable pub identity : Xform V
  identity = record { get = λ n. n; back = some (λ n. n) }

  unfoldable pub transformer : (Text → Option (Xform V)) → Text → Option (Xform V)
  unfolding identity
  transformer named name = if text_eq name [] then some identity else named name

  -- NewPathObserver on a side
  unfoldable pub side_of : Text → Kids V → Side V
  unfolding new_path_observer
  side_of path kids = record { path = path; kids = kids; seen = new_path_observer path kids }

  unfoldable pub moved : Side V → Kids V × Watch → Side V
  moved s (kids, seen) = record { path = Side.path s; kids = kids; seen = seen }

  -- SetValue of a side's PathObserver at the binding's key path
  unfoldable pub assign : Node V → Side V → Side V
  unfolding set_path moved
  assign v s = moved s (set_path (Side.path s) v (Side.kids s) (Side.seen s))

  -- newBinding with init
  unfoldable pub initial : (Node V → Node V) → Side V → Side V → Side V × Side V
  unfolding assign value_of moved
  initial get source dest =
      let (v, seen) = value_of (Side.path source) (Side.kids source) (Side.seen source) in
      (moved source (Side.kids source, seen), assign (get v) dest)

  unfoldable pub joined_by : Bool → Xform V → Side V × Side V → Binding V
  joined_by mutable x (source, dest) = record {
    source = source;
    dest = dest;
    sbind = some (Xform.get x);
    dbind = if mutable then Xform.back x else none;
  }

  unfoldable pub made : Bool → Text → Kids V → Text → Kids V → Text → Option (Xform V) → Made V
  unfolding initial side_of joined_by
  made mutable source_path source dest_path dest name none = unknown_transformer name
  made mutable source_path source dest_path dest name (some x) = bound (
      joined_by mutable x
        (initial (Xform.get x) (side_of source_path source) (side_of dest_path dest)))

  -- NewBinding, by whether the source is a MutableSource
  unfoldable pub new_binding :
      (Text → Option (Xform V)) → Bool → Text → Kids V → Text → Kids V → Text → Made V
  unfolding made transformer
  new_binding named mutable source_path source dest_path dest name =
      made mutable source_path source dest_path dest name (transformer named name)

  -- the notifications of one side reach the binding, which sets the other side
  unfoldable pub send : Option (Node V → Node V) → Text → Notices V → Side V → Side V
  unfolding assign
  send none path out s = s
  send (some xform) path [] s = s
  send (some xform) path ((at, v) ∷ out) s =
      send (some xform) path out
        (if text_eq at path || text_eq path [] then assign (xform v) s else s)

  -- a change of a key of a source below a side: the side, and what its PathObserver notifies
  unfoldable pub changed_by :
      List Text → Text → Node V → Side V → Option (Kids V) → Side V × Notices V
  unfolding deliver moved
  changed_by ps key v s none = (s, [])
  changed_by ps key v s (some kids) =
      let (seen, out) = deliver ps key v kids (Side.seen s) in (moved s (kids, seen), out)

  unfoldable pub changed : List Text → Text → Node V → Side V → Side V × Notices V
  unfolding changed_by write
  changed ps key v s = changed_by ps key v s (write ps key v (Side.kids s))

  -- a change below the source, and below the destination
  unfoldable pub source_set : List Text → Text → Node V → Binding V → Binding V
  unfolding changed send
  source_set ps key v b =
      let (s, out) = changed ps key v (Binding.source b) in
      record {
        source = s;
        dest = send (Binding.sbind b) (Side.path s) out (Binding.dest b);
        sbind = Binding.sbind b;
        dbind = Binding.dbind b;
      }

  unfoldable pub dest_set : List Text → Text → Node V → Binding V → Binding V
  unfolding changed send
  dest_set ps key v b =
      let (s, out) = changed ps key v (Binding.dest b) in
      record {
        source = send (Binding.dbind b) (Side.path s) out (Binding.source b);
        dest = s;
        sbind = Binding.sbind b;
        dbind = Binding.dbind b;
      }

  -- Release
  unfoldable pub release : Binding V → Binding V
  unfolding moved unseen
  release b =
      let s = Binding.source b in
      let d = Binding.dest b in
      record {
        source = moved s (Side.kids s, unseen (Side.seen s));
        dest = moved d (Side.kids d, unseen (Side.seen d));
        sbind = none;
        dbind = none;
      }
