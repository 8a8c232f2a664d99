-- ===== src/Controller/Tests.antt =====
-- controller/controller.go: tests, and the theorem at a concrete input.
use zugoui.Prelude.{ℕ, codes, [], ◌∷◌, ◌++◌, none, some, true, ◌≡◌, refl}
use zugoui.Controller.{
  Controller, unbind, new_click_binding, new, action, bind_action, bind_values, release,
}
use zugoui.Controller.Dispatch.{action-bind_action}
use zugoui.Controller.Handles.{unbinds, release-bind_values}

-- a controller with one action
abbrev shop : Controller ℕ
shop = (bind_action (codes "#buy") (codes "buy") 1 (some 10) (new (codes "shop"))).0

bought : action (codes "shop.buy") shop ≡ some (1, codes "buy")
unfolding action bind_action new zugoui.Prelude.lookup zugoui.Prelude.insert zugoui.Prelude.without
    zugoui.Prelude.text_eq
bought = refl

bought_globally : action (codes "global.buy") shop ≡ some (1, codes "buy")
unfolding action bind_action new zugoui.Prelude.lookup zugoui.Prelude.insert zugoui.Prelude.without
    zugoui.Prelude.text_eq
bought_globally = refl

elsewhere : action (codes "cart.buy") shop ≡ none
unfolding action bind_action new
elsewhere = refl

bound_again :
    (bind_action (codes "#now") (codes "buy") 2 (some 11) shop).1
    ≡ unbind 10 ∷ new_click_binding (codes "#now") (codes "shop.buy") ∷ []
unfolding bind_action zugoui.Prelude.lookup zugoui.Prelude.insert zugoui.Prelude.without new
    zugoui.Prelude.text_eq
bound_again = refl

action-bind_action_example :
    action (codes "shop.buy") (bind_action (codes "#now") (codes "buy") 2 none shop).0 ≡ none
unfolding bind_action zugoui.Prelude.text_eq new
action-bind_action_example =
    action-bind_action (codes "#now") (codes "buy") (codes "buy") 2 none shop

release-bind_values_example :
    unbinds 12 (release (bind_values (codes "order") (codes "form") true (some 12) shop).0).1 ≡ true
release-bind_values_example = release-bind_values 12 (codes "order") (codes "form") true 12 shop
