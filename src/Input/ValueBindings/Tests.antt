-- ===== src/Input/ValueBindings/Tests.antt =====
-- input/valuebindings.go: tests of the id paths, and the theorem at a concrete input.
use zugoui.Prelude.{Text, text_eq, codes, List, [], ◌∷◌, Bool, false, not, some, ◌≡◌, refl}
use zugoui.Input.ValueBindings.{
  Tree, tree, no_elem, elem_of, no_fields, field, object, missing, plain, Bound, parsed, rebind_all,
  new_value_bindings,
}
use zugoui.Input.ValueBindings.Recorded.{Ends, rebind_all-Ends}

-- a page without an element for the city
abbrev page : Text → Bool
page id = not (text_eq id (codes "form.city"))

abbrev named : Text → Bool
named name = text_eq name (codes "len")

-- a name in two elements, tags in a list, and an address with a city and a street
abbrev address : Tree
address = tree no_elem (
    field (codes "City") plain (codes "city" ∷ [])
      (field (codes "Street") plain (codes "street" ∷ []) no_fields))

abbrev contact : Tree
contact = tree no_elem (
    field (codes "Name") plain (codes "name" ∷ codes "title>textContent;len" ∷ [])
      (field (codes "Address") (object address) [] no_fields))

abbrev bound : Text → Text → Text → Text → Bound
bound key_path property id_path xform = record {
  key_path = key_path;
  property = property;
  id_path = id_path;
  xform = xform;
}

abbrev made : List Bound
made =
    bound (codes "Name") (codes "value") (codes "form.name") []
    ∷ bound (codes "Name") (codes "textContent") (codes "form.title") (codes "len")
    ∷ bound (codes "Address.Street") (codes "value") (codes "form.street") []
    ∷ []

rebind_test : (new_value_bindings page named contact (codes "form" ∷ [])).0.bindings ≡ made
unfolding new_value_bindings text_eq
rebind_test = refl

parsed_test :
    parsed (codes "f") (codes "K") (codes "a.>b;c")
    ≡ bound (codes "K") (codes "b") (codes "f.a") (codes "c")
unfolding parsed text_eq
parsed_test = refl

-- an element of a list that is nil is bound as a new one
abbrev friends : Tree
friends = tree no_elem (
    field (codes "Friends")
      (object (tree (elem_of address) (field (codes "0") missing [] no_fields)))
      (codes "friends" ∷ []) no_fields)

friends_test :
    (new_value_bindings page named friends []).0.id_paths
    ≡ (codes "friends.0.city", codes "Friends.0.City")
      ∷ (codes "friends.0.street", codes "Friends.0.Street")
      ∷ []
unfolding new_value_bindings text_eq
friends_test = refl

unknown_test : (new_value_bindings page (λ name. false) contact []).1 ≡ some (codes "len")
unfolding new_value_bindings text_eq
unknown_test = refl

rebind_all-Ends_example :
    Ends page named (
      rebind_all page named contact
        (codes "form" ∷ [])
        (new_value_bindings page named friends []).0)
rebind_all-Ends_example =
    rebind_all-Ends page named contact (codes "form" ∷ [])
      (new_value_bindings page named friends []).0
