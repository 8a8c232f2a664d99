-- ===== src/Jsrpc/Form/Tests.antt =====
-- jsrpc/form.go: tests of a form with two elements for one field, and the theorem at a concrete input.
use zugoui.Prelude.{
  ℕ, Text, codes, List, [], ◌∷◌, Assoc, lookup, Option, none, some, ◌≡◌, refl, arith,
}
use zugoui.Observable.Validate.{Source, node, fields, child, leaf, end, invalid, validate}
use zugoui.Observable.PathObserver.{plain, Kids, no_kids, kid}
use zugoui.Jsrpc.Form.{new_form, errors, get_value, new_subscription, called}
use zugoui.Jsrpc.Form.Shown.{IsMap, errors-new_form}

-- the name in two elements, and the street
abbrev keys : Assoc Text
keys =
    (codes "first", codes "Name")
    ∷ (codes "second", codes "Name")
    ∷ (codes "street", codes "Address.Street")
    ∷ []

-- a name with an error, and an address with errors of its street and of its zip, which is not shown
abbrev person : Source ℕ
person = node (fields ((codes "Name", 1) ∷ [])) (
    leaf (codes "Name") (
      child (codes "Address") (node (fields ((codes "Street", 2) ∷ (codes "Zip", 3) ∷ [])) end)
        end))

abbrev person_errors : Assoc ℕ
person_errors = (codes "Name", 1) ∷ (codes "Address.Street", 2) ∷ (codes "Address.Zip", 3) ∷ []

validate_test : validate person ≡ invalid person_errors
unfolding validate zugoui.Prelude.insert zugoui.Prelude.text_eq
validate_test = refl

errors_test :
    errors (new_form keys) person
    ≡ (codes "first", 1) ∷ (codes "second", 1) ∷ (codes "street", 2) ∷ []
unfolding errors zugoui.Prelude.text_eq new_form
errors_test = refl

-- the values of the page are those of Value at the key paths
get_value_test : get_value (λ key. key) (codes "street") (new_form keys) ≡ codes "Address.Street"
unfolding get_value new_form zugoui.Prelude.text_eq
get_value_test = refl

-- a subscription to the whole form is called for a change of a field
abbrev cat : ℕ → Kids ℕ
cat name = kid (codes "Name") (plain name) no_kids

called_test : called [] (codes "Name") (plain 2) (cat 2) (new_subscription [] (cat 1)) ≡ 1
unfolding called new_subscription zugoui.Prelude.text_eq zugoui.Prelude.Dotted.cut
called_test = refl

called_other_test :
    called [] (codes "Name") (plain 2) (cat 2) (new_subscription (codes "Age") (cat 1)) ≡ 0
unfolding called new_subscription zugoui.Prelude.text_eq zugoui.Prelude.Dotted.cut
called_other_test = refl

keys-IsMap : IsMap keys
unfolding lookup zugoui.Prelude.text_eq
keys-IsMap = (refl, (refl, (refl, tt)))

person_errors-IsMap : IsMap person_errors
unfolding lookup zugoui.Prelude.text_eq
person_errors-IsMap = (refl, (refl, (refl, tt)))

errors-new_form_example : lookup (codes "second") (errors (new_form keys) person) ≡ some 1
unfolding zugoui.Jsrpc.Form.Shown.error_of lookup zugoui.Prelude.text_eq
errors-new_form_example =
    errors-new_form keys person person_errors (codes "second") keys-IsMap person_errors-IsMap
      validate_test
