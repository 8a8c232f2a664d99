-- ===== src/Observable/PathObserver/Tests.antt =====
-- observable/path.go: tests, and the theorem at a concrete input.
use zugoui.Prelude.{ℕ, Text, codes, List, [], ◌∷◌, some, ◌≡◌, refl}
use zugoui.Observable.KeyPath.{join_key_path}
use zugoui.Observable.PathObserver.{
  Node, plain, nil, object, Kids, no_kids, kid, Watch, Notices, star, new_path_observer, write,
  deliver,
}
use zugoui.Observable.PathObserver.Access.{set_path}
use zugoui.Observable.PathObserver.Reports.{Write, run}

-- a shop with an owner, who gets an address
abbrev shop : Kids ℕ
shop =
    kid (codes "name") (plain 1)
      (kid (codes "owner") (object (kid (codes "age") (plain 40) no_kids)) no_kids)

abbrev address : ℕ → Node ℕ
address zip = object (kid (codes "street") nil (kid (codes "zip") (plain zip) no_kids))

abbrev moved : Write ℕ
moved = (codes "owner" ∷ [], codes "address", address 7, address 7)

-- what the root notifies of a write after `moved`
abbrev told : List Text → Text → Node ℕ → Kids ℕ → Notices ℕ
told ps key v after =
    (deliver ps key v after (run (moved ∷ []) (shop, new_path_observer star shop)).1).1

abbrev moved_shop : ℕ → Kids ℕ
moved_shop zip = kid (codes "name") (plain 1) (
    kid (codes "owner")
      (object (kid (codes "age") (plain 40) (kid (codes "address") (address zip) no_kids))) no_kids)

-- a value in a source that was not there when the path observer was made
deep :
    told (codes "owner" ∷ codes "address" ∷ []) (codes "zip") (plain 9) (moved_shop 9)
    ≡ (codes "owner.address.zip", plain 9) ∷ []
unfolding deliver run write zugoui.Prelude.text_eq new_path_observer zugoui.Prelude.Dotted.cut
    join_key_path
deep = refl

-- a path observer of one key path hears of nothing else
abbrev ages : Notices ℕ
ages = (deliver [] (codes "name") (plain 2) shop (new_path_observer (codes "owner.age") shop)).1

other_key : ages ≡ []
unfolding deliver new_path_observer zugoui.Prelude.text_eq zugoui.Prelude.Dotted.cut
other_key = refl

abbrev emptied : Kids ℕ
emptied = kid (codes "owner") nil no_kids

-- the owner is gone, and so is the key path that is watched
gone :
    (deliver [] (codes "owner") nil emptied (new_path_observer (codes "owner.age") shop)).1
    ≡ (codes "owner", nil) ∷ (codes "owner.age", nil) ∷ []
unfolding deliver new_path_observer zugoui.Prelude.text_eq zugoui.Prelude.Dotted.cut join_key_path
gone = refl

-- a removal of a key, which no read or write makes
abbrev no_removal : List Text → Text → Kids ℕ → Kids ℕ
no_removal ps key kids = kids

-- a write through a path observer to a source that came after it
abbrev moved_on : Kids ℕ × Watch
moved_on = run (moved ∷ []) (shop, new_path_observer star shop)

abbrev zipped : Kids ℕ
zipped = (set_path (codes "owner.address.zip") (plain 9) moved_on.0 moved_on.1).0

zipped_test : zipped ≡ moved_shop 9
unfolding set_path run write new_path_observer zugoui.Prelude.text_eq zugoui.Prelude.Dotted.cut
zipped_test = refl

astray_test : (set_path (codes "name.age") (plain 41) shop (new_path_observer star shop)).0 ≡ shop
unfolding set_path new_path_observer zugoui.Prelude.text_eq zugoui.Prelude.Dotted.cut
astray_test = refl
