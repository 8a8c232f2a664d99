-- ===== src/Browser/FormStore/Tests.antt =====
-- browser/formstore.go: tests, and the theorems at concrete inputs.
use zugoui.Prelude.{
  ℕ, zero, suc, ◌+◌, Text, text_eq, text_eq_iff, codes, List, [], ◌∷◌, Assoc, lookup, Bool, true,
  false, Option, none, some, ◌≡◌, ◌≢◌, ◌⊎◌, inl, inr, refl, sym, ap, ◌∙◌, ◌&&◌, Bool-cases,
  if◌then◌else◌, ◌==◌, arith,
}
use mathlib.Core.Option
use zugoui.JsonPath.{Ref, StructField, Shape, struct, other, ok, key_path}
use zugoui.JsonPath.RoundTrip.{HasGoNames}
use zugoui.Observable.KeyPath.{Outcome, done}
use zugoui.Observable.Validate.{Source, node, valid, fields, end, validate}
use zugoui.Wsrpc.Failure.{GoError, coded, RpcError, rpc_error}
use zugoui.Browser.FormStore.{
  Outside, FormStore, Input, attach, becomes, subscribe, read_snapshot, set, err_unbound, unfit,
  new_form_store, errors_of, error_object, get_snapshot, do_set, step, run,
}
use zugoui.Browser.FormStore.Fresh.{IsDeepEqual, IsQuiet, run-Shows}
use zugoui.Browser.FormStore.Silent.{reads, step-Silent}
use zugoui.Browser.FormStore.Fields.{Reports, run-Reports}

-- a form with one number, which has to be positive
abbrev plain : ℕ → Ref ℕ
plain b = record { stars = 0; base = b }

abbrev count : StructField ℕ
count = record { name = codes "Count"; json_tag = codes "count"; exported = true; type = plain 1 }

abbrev shapes : ℕ → Shape ℕ
shapes zero = struct (count ∷ [])
shapes (suc n) = other

abbrev too_small : GoError ℕ
too_small = coded (codes "too small") (codes "tooSmall") (some 1)

abbrev checked : ℕ → Source (GoError ℕ)
checked zero = node (fields ((codes "Count", too_small) ∷ [])) end
checked (suc n) = node valid end

abbrev numbers_equal : Option ℕ → Option ℕ → Bool
numbers_equal none none = true
numbers_equal none (some n) = false
numbers_equal (some m) none = false
numbers_equal (some m) (some n) = m == n

abbrev errors_equal : RpcError ℕ → RpcError ℕ → Bool
errors_equal e f =
    text_eq e.code f.code && (text_eq e.message f.message && numbers_equal e.params f.params)

abbrev maps_equal : Assoc (RpcError ℕ) → Assoc (RpcError ℕ) → Bool
maps_equal [] [] = true
maps_equal [] (x ∷ b) = false
maps_equal (x ∷ a) [] = false
maps_equal ((k, e) ∷ a) ((j, f) ∷ b) = text_eq k j && (errors_equal e f && maps_equal a b)

numbers_sound : (m n : Option ℕ) → numbers_equal m n ≡ true → m ≡ n
numbers_sound none none h = refl
numbers_sound none (some n) h = absurd cc
numbers_sound (some m) none h = absurd cc
numbers_sound (some m) (some n) h = ground arith

both : (a b : Bool) → (a && b) ≡ true → (a ≡ true) × (b ≡ true)
both true b h = (refl, h)
both false b h = absurd cc

errors_sound : (e f : RpcError ℕ) → errors_equal e f ≡ true → e ≡ f
errors_sound e f h =
    let (c, h') = both _ _ h in
    let (m, p) = both _ _ h' in
    let c' = (text_eq_iff e.code f.code).0 c in
    let m' = (text_eq_iff e.message f.message).0 m in
    let p' = numbers_sound e.params f.params p in
    λ i. record { code = c' i; message = m' i; params = p' i }

maps_sound : (a b : Assoc (RpcError ℕ)) → maps_equal a b ≡ true → a ≡ b
maps_sound [] [] h = refl
maps_sound [] (x ∷ b) h = absurd cc
maps_sound (x ∷ a) [] h = absurd cc
maps_sound ((k, e) ∷ a) ((j, f) ∷ b) h =
    let (c, h') = both _ _ h in
    let (m, p) = both _ _ h' in
    let c' = (text_eq_iff k j).0 c in
    let m' = errors_sound e f m in let p' = maps_sound a b p in rw (c', m', p') refl

-- a page's number is set, unless it is above 9; a write of the number that is there tells nobody
abbrev page : Outside ℕ ℕ ℕ ℕ ℕ ℕ
page = record {
  shape = shapes;
  promoted = λ fs name. none;
  type_of = λ m. plain 0;
  tree = checked;
  encoded = λ m. some m;
  fit = λ t v. if v == 10 then none else some v;
  write = λ k w m. (done, w, if w == m then 0 else 1);
  deep_equal = maps_equal;
  shown_params = λ p. some p;
}

page-IsDeepEqual : IsDeepEqual page
page-IsDeepEqual a b k h = ap (lookup k) (maps_sound a b h)

page-IsQuiet : IsQuiet page
page-IsQuiet k w m m' r e =
    stays (ap (λ (x : Outcome × ℕ × ℕ). x.1) e) (ap (λ (x : Outcome × ℕ × ℕ). x.2) e)
  where
    stays : w ≡ m' → if◌then◌else◌ {A = ℕ} (w == m) 0 1 ≡ 0 → m' ≡ m
    stays q n = ground arith

shapes-HasGoNames : (b : ℕ) → HasGoNames (shapes b)
shapes-HasGoNames zero = ground arith
shapes-HasGoNames (suc n) = tt

-- The page subscribes, the form is bound, the server sets the number to 3, and the page sets it to
-- 0, which is too small.
abbrev calls : List (Input Text ℕ ℕ)
calls =
    subscribe (codes "render")
    ∷ attach 5
    ∷ read_snapshot
    ∷ becomes 3
    ∷ read_snapshot
    ∷ set (codes "count") 0
    ∷ []

abbrev store : FormStore Text ℕ ℕ ℕ ℕ ℕ
store = run page calls new_form_store

unbound : (do_set page (codes "count") 4 (new_form_store {C = Text})).0 ≡ err_unbound
unfolding do_set new_form_store
unbound = refl

not_fit : (do_set page (codes "count") 10 store).0 ≡ unfit
unfolding do_set run validate new_form_store key_path zugoui.Prelude.Dotted.split
    zugoui.JsonPath.field_by_json zugoui.JsonPath.json_name text_eq zugoui.Prelude.insert
not_fit = refl

-- a form that is too small from the start: each subscriber is called once
told : (step page (attach 0) (record store { err_subs = store.subs })).1 ≡ codes "render" ∷ []
unfolding step zugoui.Browser.Session.all zugoui.Browser.Session.add validate zugoui.Prelude.insert
    run new_form_store key_path zugoui.Prelude.Dotted.split zugoui.JsonPath.field_by_json
    zugoui.JsonPath.json_name text_eq zugoui.JsonPath.from_key_path zugoui.Prelude.Dotted.join
    zugoui.JsonPath.own_field rpc_error zugoui.Wsrpc.Failure.as_coded
told = refl

resolved : key_path shapes (some (plain 0)) (codes "count") ≡ ok (codes "Count", plain 1)
unfolding key_path zugoui.Prelude.Dotted.split zugoui.JsonPath.field_by_json
    zugoui.JsonPath.json_name text_eq zugoui.Prelude.Dotted.join
resolved = refl

run-Shows_example :
    (lookup (codes "count") store.errors.1
      ≡ Option.map
          (error_object page)
          (lookup (codes "count") (errors_of page store.typ (validate (checked 0)))))
    × ((n : ℕ) × ((get_snapshot page store).0 ≡ some (n, 0)))
unfolding run validate new_form_store key_path zugoui.Prelude.Dotted.split
    zugoui.JsonPath.field_by_json zugoui.JsonPath.json_name text_eq zugoui.Prelude.insert
run-Shows_example =
    run-Shows page page-IsDeepEqual page-IsQuiet calls 0 0 (codes "count") refl refl refl

step-Silent_example : reads page store ≡ reads page store
unfolding run validate new_form_store key_path zugoui.Prelude.Dotted.split
    zugoui.JsonPath.field_by_json zugoui.JsonPath.json_name text_eq zugoui.Prelude.insert
    zugoui.Browser.Session.add
step-Silent_example =
    step-Silent page (set (codes "count") 0) store store (1, codes "render") [] page-IsQuiet refl
      refl refl

run-Reports_example :
    (e' : GoError ℕ) × Reports page store.typ (codes "count") ((codes "Count", too_small) ∷ []) e'
    × (lookup (codes "count") store.errors.1 ≡ some (error_object page (rpc_error e')))
unfolding run validate new_form_store key_path zugoui.Prelude.Dotted.split
    zugoui.JsonPath.field_by_json zugoui.JsonPath.json_name text_eq zugoui.Prelude.insert
    zugoui.Prelude.Dotted.join
run-Reports_example =
    run-Reports page calls 0 (codes "count") (codes "Count") (plain 1)
      ((codes "Count", too_small) ∷ []) too_small shapes-HasGoNames page-IsDeepEqual page-IsQuiet
      refl refl refl refl (inl (refl, refl))
