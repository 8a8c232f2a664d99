-- ===== src/Input/ValueBindings/Recorded.antt =====
-- input/valuebindings.go: what Rebind records of the bindings that it makes.
use zugoui.Prelude.{
  Text, text_eq, text_eq_iff, List, [], ◌∷◌, ◌++◌, All, All-append, lookup, lookup-insert, Bool,
  true, false, ◌||◌, Option, none, some, if◌then◌else◌, ◌≡◌, refl, sym, subst, ◌∙◌, inl, inr,
  Bool-cases, arith,
}
use zugoui.Input.ValueBindings.{
  Tree, tree, no_elem, elem_of, Fields, no_fields, field, Held, object, missing, plain, Bound,
  ValueBindings, Result, behind, has_id, release, and_then, Inner, with_input, bind, bind_input,
  bind_element, bind_inner, parsed, bind_all, bind_key, id_of, has_elem, rebind, rebind_fields,
  rebind_held, rebind_ids, rebind_all,
}

later : Option Text → Option Text → Option Text
later none k = k
later (some k') k = some k'

-- the key path of the last binding with an id path
unfoldable pub key_of : Text → List Bound → Option Text
unfolding later
key_of id [] = none
key_of id (b ∷ bs) = later (key_of id bs) (if text_eq b.id_path id then some b.key_path else none)

key_of-append :
    (id : Text) (bs : List Bound) (b : Bound)
    → key_of id (bs ++ b ∷ []) ≡ (if text_eq b.id_path id then some b.key_path else key_of id bs)
unfolding key_of later
key_of-append id [] b = refl
key_of-append id (c ∷ bs) b = rw (key_of-append id bs b) (here (text_eq b.id_path id))
  where
    here :
        (x : Bool)
        → later
            (if x then some b.key_path else key_of id bs)
            (if text_eq c.id_path id then some c.key_path else none)
          ≡ (if x
              then some b.key_path
              else later (key_of id bs) (if text_eq c.id_path id then some c.key_path else none))
    here true = refl
    here false = refl

module _ (element : Text → Bool) (known : Text → Bool) where
  -- The element is there, and so is the transformer, if there is to be one.
  abbrev pub IsMade : Bound → Type 0
  IsMade b = (element b.id_path ≡ true) × ((text_eq b.xform [] || known b.xform) ≡ true)

  -- The id paths are those of the bindings, each with the key path of its last binding.
  abbrev pub IsRecorded : ValueBindings → Type 0
  IsRecorded vb =
      ((id : Text) → lookup id vb.id_paths ≡ key_of id vb.bindings)
      × All IsMade vb.bindings
      × All (λ id. element id ≡ true) vb.inputs

  -- That, or a transformer that is not known.
  abbrev pub Ends : Result → Type 0
  Ends (vb, none) = IsRecorded vb
  Ends (vb, some err) = (known err ≡ false) × All IsMade vb.bindings

  and_then-Ends :
      (r : Result) (next : ValueBindings → Result)
      → Ends r
      → ((vb : ValueBindings) → IsRecorded vb → Ends (next vb))
      → Ends (and_then r next)
  unfolding and_then
  and_then-Ends (vb, none) next h f = f vb h
  and_then-Ends (vb, some err) next h f = h

  bind-Ends :
      (b : Bound) (vb : ValueBindings)
      → element b.id_path ≡ true
      → IsRecorded vb
      → Ends (bind element known b vb)
  unfolding bind
  bind-Ends b vb e (ids, made, inputs) = elim (Bool-cases (text_eq b.xform [] || known b.xform)) [
    | inl ok ↦ rw ok (
      (λ id.
          lookup-insert b.id_path id b.key_path vb.id_paths
          ∙ (rw (ids id) (sym (key_of-append id vb.bindings b)))),
      All-append IsMade vb.bindings (b ∷ []) made ((e, ok), tt),
      inputs,
    )
    | inr bad ↦ rw bad (ground arith, made)
  ]

  has_id-element :
      (id : Text) (ids : List Text)
      → has_id id ids ≡ true
      → All (λ id. element id ≡ true) ids
      → element id ≡ true
  unfolding has_id
  has_id-element id [] h a = absurd cc
  has_id-element id (x ∷ ids) h (e, a) = elim (Bool-cases (text_eq x id)) [
    | inl t ↦ subst (λ y. element y ≡ true) ((text_eq_iff x id).0 t) e
    | inr f ↦ has_id-element id ids (rw f at h) a
  ]

  bind_element-Ends :
      (b : Bound) (vb : ValueBindings) → IsRecorded vb → Ends (bind_element element known b vb)
  unfolding bind_element with_input bind_input
  bind_element-Ends b vb (ids, made, inputs) = elim (Bool-cases (has_id b.id_path vb.inputs)) [
    | inl h ↦
        rw h (bind-Ends b vb (has_id-element b.id_path vb.inputs h inputs) (ids, made, inputs))
    | inr n ↦ elim (Bool-cases (element b.id_path)) [
      | inl e ↦
          rw (n, e)
            (bind-Ends b (record vb { inputs = b.id_path ∷ vb.inputs }) e (ids, made, (e, inputs)))
      | inr e ↦ rw (n, e) (ids, made, inputs)
    ]
  ]

  -- the function of what a key holds keeps the record
  abbrev Keeps : Inner → Type 0
  Keeps none = Unit
  Keeps (some (has_elem, go)) =
      (id key_path : Text) (vb : ValueBindings) → IsRecorded vb → Ends (go id key_path vb)

  bind_inner-Ends :
      (inner : Inner) (b : Bound) (vb : ValueBindings)
      → Keeps inner
      → IsRecorded vb
      → Ends (bind_inner element known inner b vb)
  unfolding bind_inner
  bind_inner-Ends none b vb k h = bind_element-Ends b vb h
  bind_inner-Ends (some (true, go)) b vb k h =
      and_then-Ends (go b.id_path b.key_path vb) _ (k b.id_path b.key_path vb h) (λ vb h. h)
  bind_inner-Ends (some (false, go)) b vb k h =
      and_then-Ends (go b.id_path b.key_path vb) _ (k b.id_path b.key_path vb h)
        (λ vb h. bind_element-Ends b vb h)

  bind_all-Ends :
      (inner : Inner) (id key_path : Text) (tags : List Text) (vb : ValueBindings)
      → Keeps inner
      → IsRecorded vb
      → Ends (bind_all element known inner id key_path tags vb)
  unfolding bind_all
  bind_all-Ends inner id key_path [] vb k h = h
  bind_all-Ends inner id key_path (t ∷ tags) vb k h =
      and_then-Ends (bind_inner element known inner (parsed id key_path t) vb) _
        (bind_inner-Ends inner (parsed id key_path t) vb k h)
        (λ vb h. bind_all-Ends inner id key_path tags vb k h)

  bind_key-Ends :
      (inner : Inner) (id key_path : Text) (tags : List Text) (vb : ValueBindings)
      → Keeps inner
      → IsRecorded vb
      → Ends (bind_key element known inner id key_path tags vb)
  unfolding bind_key
  bind_key-Ends none id key_path [] vb k h = h
  bind_key-Ends (some (e, go)) id key_path [] vb k h = k id key_path vb h
  bind_key-Ends inner id key_path (t ∷ tags) vb k h =
      bind_all-Ends inner id key_path (t ∷ tags) vb k h

  mutual
    unfolding rebind

    rebind-Ends :
        (t : Tree) (id key_path : Text) (vb : ValueBindings)
        → IsRecorded vb
        → Ends (rebind element known t id key_path vb)
    rebind-Ends (tree no_elem fs) id key_path vb h = rebind_fields-Ends none fs id key_path vb tt h
    rebind-Ends (tree (elem_of t) fs) id key_path vb h =
        rebind_fields-Ends
          (some (has_elem t, λ id key_path vb. rebind element known t id key_path vb)) fs id
          key_path vb (λ id key_path vb h. rebind-Ends t id key_path vb h) h

    rebind_fields-Ends :
        (stub : Inner) (fs : Fields) (id key_path : Text) (vb : ValueBindings)
        → Keeps stub
        → IsRecorded vb
        → Ends (rebind_fields element known stub fs id key_path vb)
    rebind_fields-Ends stub no_fields id key_path vb k h = h
    rebind_fields-Ends stub (field key held tags fs) id key_path vb k h =
        and_then-Ends _ _
          (bind_key-Ends (rebind_held element known stub held) (id_of stub key id)
            (behind key_path key) tags vb (rebind_held-Keeps stub held k) h)
          (λ vb h. rebind_fields-Ends stub fs id key_path vb k h)

    rebind_held-Keeps :
        (stub : Inner) (held : Held) → Keeps stub → Keeps (rebind_held element known stub held)
    rebind_held-Keeps stub (object t) k = λ id key_path vb h. rebind-Ends t id key_path vb h
    rebind_held-Keeps stub missing k = k
    rebind_held-Keeps stub plain k = tt

  rebind_ids-Ends :
      (t : Tree) (ids : List Text) (vb : ValueBindings)
      → IsRecorded vb
      → Ends (rebind_ids element known t ids vb)
  unfolding rebind_ids
  rebind_ids-Ends t [] vb h = h
  rebind_ids-Ends t (id ∷ ids) vb h =
      and_then-Ends (rebind element known t id [] vb) _ (rebind-Ends t id [] vb h)
        (λ vb h. rebind_ids-Ends t ids vb h)

  -- Rebind, on whatever bindings there were before: where it returns no error, IDPaths has the id
  -- paths of the bindings that it made and no other, each with the key path of the last binding of
  -- that id path, and each binding has its element and its transformer, if it names one. An error is
  -- always that of a transformer that is not known.
  pub rebind_all-Ends :
      (t : Tree) (ids : List Text) (vb : ValueBindings) → Ends (rebind_all element known t ids vb)
  unfolding rebind_all release key_of lookup
  rebind_all-Ends t [] vb = rebind-Ends t [] [] (release vb) ((λ id. refl), tt, tt)
  rebind_all-Ends t (id ∷ ids) vb = rebind_ids-Ends t (id ∷ ids) (release vb) ((λ id. refl), tt, tt)
