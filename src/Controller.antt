-- ===== src/Controller.antt =====
-- controller/controller.go: the actions and values that a controller binds, under its namespace.
--
-- A target is a function that the program gives for an action; its type is `A`. The browser answers
-- a new binding with a handle, or with an error (`none`). An operation returns the calls of the
-- browser and of the server, in order.
pub mod Dispatch
pub mod Handles
mod Tests
use zugoui.Prelude.{
  ℕ, Text, codes, List, [], ◌∷◌, ◌++◌, map, Assoc, lookup, insert, without, Bool, true, false,
  Option, none, some, ◌==◌, if◌then◌else◌,
}
use zugoui.Prelude.Dotted.{dot}

pub record ActionBinding (A : Type 0) : Type 0 where
  pub handle : ℕ
  pub target : A

pub record Controller (A : Type 0) : Type 0 where
  pub bindings : Assoc (List ℕ)
  pub actions : Assoc (ActionBinding A)
  pub prefix : Text

-- A call of the browser, or of the server's registry of observers and calls.
pub data BrowserCall : Type 0 where
  add_value_observer : Text → BrowserCall
  remove_value_observers : Text → BrowserCall
  release_action_observers : BrowserCall
  release_calls : BrowserCall
  new_value_binding : Text → Text → BrowserCall
  unbind : ℕ → BrowserCall
  new_click_binding : Text → Text → BrowserCall

-- strings.CutPrefix
unfoldable pub cut_prefix : Text → Text → Option Text
cut_prefix s [] = some s
cut_prefix [] (p ∷ ps) = none
cut_prefix (b ∷ s) (p ∷ ps) = if b == p then cut_prefix s ps else none

or_else : {A : Type 0} → Option A → Option A → Option A
or_else none other = other
or_else (some a) other = some a

module _ {A : Type 0} where
  -- New, but for the observers that it adds to the server
  unfoldable pub new : Text → Controller A
  new namespace = record { bindings = []; actions = []; prefix = namespace ++ dot ∷ [] }

  target_of : Text → Option (ActionBinding A) → Option (A × Text)
  target_of name none = none
  target_of name (some b) = some (b.target, name)

  target_for : Option Text → Controller A → Option (A × Text)
  unfolding target_of
  target_for none c = none
  target_for (some name) c = target_of name (lookup name c.actions)

  -- Controller.action: the target that it calls, and with which name
  unfoldable pub action : Text → Controller A → Option (A × Text)
  unfolding or_else target_for cut_prefix
  action name c =
      target_for (or_else (cut_prefix name c.prefix) (cut_prefix name (codes "global."))) c

  -- the unbinding of an action that is bound already
  unfoldable pub unbind_old : Option (ActionBinding A) → List BrowserCall
  unbind_old none = []
  unbind_old (some b) = unbind b.handle ∷ []

  bind_answer : Text → A → Option ℕ → Controller A → Controller A
  bind_answer name target none c = c
  bind_answer name target (some h) c = record c {
    actions = insert name (record { handle = h; target = target }) c.actions;
  }

  -- BindAction, with the browser's answer to NewClickBinding
  unfoldable pub bind_action :
      Text → Text → A → Option ℕ → Controller A → Controller A × List BrowserCall
  unfolding unbind_old bind_answer
  bind_action element name target answer c = (
    bind_answer name target answer (record c { actions = without name c.actions }),
    unbind_old (lookup name c.actions) ++ new_click_binding element (c.prefix ++ name) ∷ [],
  )

or_none : Option (List ℕ) → List ℕ
or_none none = []
or_none (some hs) = hs

unfoldable pub add_handle : Text → ℕ → Assoc (List ℕ) → Assoc (List ℕ)
unfolding or_none
add_handle key h m = insert key (or_none (lookup key m) ++ h ∷ []) m

unfoldable pub unbind_all : List ℕ → List BrowserCall
unbind_all [] = []
unbind_all (h ∷ hs) = unbind h ∷ unbind_all hs

unfoldable pub release_bindings : Assoc (List ℕ) → List BrowserCall
unfolding unbind_all
release_bindings [] = []
release_bindings ((key, hs) ∷ m) = remove_value_observers key ∷ unbind_all hs ++ release_bindings m

module _ {A : Type 0} where
  value_answer : Text → Option ℕ → Controller A → Controller A
  unfolding add_handle
  value_answer key none c = c
  value_answer key (some h) c = record c { bindings = add_handle key h c.bindings }

  -- BindValues, for a source that is mutable or not, with the browser's answer to NewValueBinding
  unfoldable pub bind_values :
      Text → Text → Bool → Option ℕ → Controller A → Controller A × List BrowserCall
  unfolding value_answer
  bind_values name form mutable answer c =
      let key = c.prefix ++ name in
      (
        value_answer key answer c,
        (if mutable then add_value_observer key ∷ [] else []) ++ new_value_binding key form ∷ [],
      )

  unfoldable pub release_actions : Assoc (ActionBinding A) → List BrowserCall
  release_actions [] = []
  release_actions ((name, b) ∷ m) = unbind b.handle ∷ release_actions m

  -- Release, but for the release of the sources
  unfoldable pub release : Controller A → Controller A × List BrowserCall
  unfolding release_bindings release_actions
  release c = (
    record c { bindings = []; actions = [] },
    release_bindings c.bindings
        ++ release_action_observers ∷ release_calls ∷ release_actions c.actions,
  )
