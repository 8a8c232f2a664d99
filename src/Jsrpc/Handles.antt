-- ===== src/Jsrpc/Handles.antt =====
-- jsrpc/browser.go: the bindings of a page, by the handles that the server has of them.
--
-- A binding is named by its handle, since each is stored under one of its own. `released` holds the
-- handles whose bindings were released, and `shown` the calls of onForm, each in order. The elements
-- of the page are left out: whether input.NewValueBindings succeeds is an argument. Release of the
-- browser, which ends a session, is no call of it here.
pub mod Sound
pub mod Unbinding
pub mod Ledger
mod Tests
use zugoui.Prelude.{
  ℕ, ◌+◌, Text, List, [], ◌∷◌, ◌++◌, map, Assoc, lookup, insert, without, Bool, true, false, Option,
  none, some, ◌==◌, ◌&&◌, ◌||◌, not, if◌then◌else◌,
}

pub data Binding : Type 0 where
  value_bindings : Text → Binding
  click_binding : Binding
  no_binding : Binding

pub record Browser : Type 0 where
  pub headless : Bool
  pub next_id : ℕ
  pub handles : List (ℕ × Binding)
  pub form_ids : Assoc ℕ
  pub form_added : Bool
  pub released : List ℕ
  pub shown : List (Text × ℕ)

unfoldable pub find : ℕ → List (ℕ × Binding) → Option Binding
find h [] = none
find h ((i, v) ∷ hs) = if i == h then some v else find h hs

unfoldable pub without_handle : ℕ → List (ℕ × Binding) → List (ℕ × Binding)
without_handle h [] = []
without_handle h ((i, v) ∷ hs) =
    let rest = without_handle h hs in if i == h then rest else (i, v) ∷ rest

-- New and NewHeadless, with the handle that was given out last
unfoldable pub new_browser : Bool → ℕ → Browser
new_browser headless last = record {
  headless = headless;
  next_id = last;
  handles = [];
  form_ids = [];
  form_added = false;
  released = [];
  shown = [];
}

is_named : Text → Bool
is_named [] = false
is_named (b ∷ t) = true

-- formIDs.Store, and the signal, which waits for no receiver
store_form : Text → ℕ → Browser → Browser
unfolding is_named
store_form form h b =
    if is_named form then record b { form_ids = insert form h b.form_ids; form_added = true } else b

-- storeBindings
unfoldable pub store_bindings : ℕ → Binding → Browser → Browser
unfolding store_form
store_bindings h (value_bindings form) b =
    store_form form h (record b { handles = (h, value_bindings form) ∷ b.handles })
store_bindings h click_binding b = record b { handles = (h, click_binding) ∷ b.handles }
store_bindings h no_binding b = record b { handles = (h, no_binding) ∷ b.handles }

show_form : Text → ℕ → Browser → Browser
unfolding is_named
show_form form h b =
    if b.headless && is_named form then record b { shown = b.shown ++ (form, h) ∷ [] } else b

-- NewValueBinding, with the success of input.NewValueBindings, and the handle that it returns
unfoldable pub new_value_binding : Text → Bool → Browser → Browser × Option ℕ
unfolding store_bindings show_form
new_value_binding form bound b =
    let h = b.next_id + 1 in
    let b' = record b { next_id = h } in
    if b.headless || bound
    then (show_form form h (store_bindings h (value_bindings form) b'), some h)
    else (b', none)

-- NewClickBinding
unfoldable pub new_click_binding : Browser → Browser × ℕ
unfolding store_bindings
new_click_binding b =
    let h = b.next_id + 1 in
    (
      store_bindings h (if b.headless then no_binding else click_binding)
          (record b { next_id = h }),
      h,
    )

delete_if : Option ℕ → Text → ℕ → Assoc ℕ → Assoc ℕ
delete_if none form h m = m
delete_if (some i) form h m = if i == h then without form m else m

-- CompareAndDelete
unfoldable pub without_if : Text → ℕ → Assoc ℕ → Assoc ℕ
unfolding delete_if
without_if form h m = delete_if (lookup form m) form h m

unbind_found : ℕ → Option Binding → Browser → Browser × Bool
unfolding is_named without_if without_handle
unbind_found h none b = (b, false)
unbind_found h (some (value_bindings form)) b = (
  record b {
    handles = without_handle h b.handles;
    form_ids = if is_named form then without_if form h b.form_ids else b.form_ids;
    released = b.released ++ h ∷ [];
  },
  true,
)
unbind_found h (some click_binding) b =
    (record b { handles = without_handle h b.handles; released = b.released ++ h ∷ [] }, true)
unbind_found h (some no_binding) b =
    (record b { handles = without_handle h b.handles; released = b.released ++ h ∷ [] }, true)

-- Unbind; false is ErrInvalidHandle
unfoldable pub unbind : ℕ → Browser → Browser × Bool
unfolding unbind_found find
unbind h b = unbind_found h (find h b.handles) b

-- Rebind, beside the bindings that it rebinds
unfoldable pub rebind : Browser → Browser
rebind b = record b { form_ids = [] }

is_value : Option Binding → Bool
is_value (some (value_bindings form)) = true
is_value _ = false

-- SetValue: whether the handle resolves to value bindings, which then get the value
unfoldable pub set_value : ℕ → Browser → Bool
unfolding is_value find
set_value h b = is_value (find h b.handles)
