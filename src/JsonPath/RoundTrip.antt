-- ===== src/JsonPath/RoundTrip.antt =====
-- jsonpath/jsonpath.go: a JSON path that KeyPath resolves comes back from FromKeyPath.
use zugoui.Prelude.{
  Text, text_eq_iff, text_eq_refl, List, [], ◌∷◌, ◌++◌, append_assoc, append-nil, true, Option,
  none, some, if◌then◌else◌, All, ◌≡◌, ◌≢◌, ◌∙◌, refl, sym, ap, arith, inl, inr, Bool-cases,
  Option-cases,
}
use zugoui.Prelude.Dotted.{LacksDot, split, join, split-join, split-All, split-ne-nil, join-split}
use zugoui.Prelude.Decimal.{atoi}
use zugoui.JsonPath.{
  Ref, StructField, Shape, struct, slice, array, mapping, other, Result, ok, err, ◌>>=◌, json_name,
  field_by_json, own_field, not_index, enter, key_loop, key_path, field_by_name, leave, name_loop,
  from_key_path, is_named, or_segment, deref,
}

is_named_sound : (segment : Text) (o : Option Text) → is_named segment o ≡ true → o ≡ some segment
unfolding is_named
is_named_sound segment none h = cc
is_named_sound segment (some name) h = ap some ((text_eq_iff name segment).0 h)

-- a chain that succeeds did so in its first part
split_chain {ℓ κ} :
    {A : Type ℓ} {B : Type κ} (first : Result A) (rest : A → Result B) {out : B}
    → (first >>= rest) ≡ ok out
    → (x : A) × (first ≡ ok x) × (rest x ≡ ok out)
split_chain (err e) rest p = cc
split_chain (ok x) rest p = (x, refl, p)

module _ {B : Type 0} where
  abbrev pub Distinct : List (StructField B) → Type 0
  Distinct [] = Unit
  Distinct (f ∷ fs) = All (λ g. f.name ≢ g.name) fs × Distinct fs

  -- What Go guarantees of a struct: its field names are identifiers, and differ from one another.
  abbrev pub HasGoNames : Shape B → Type 0
  HasGoNames (struct fs) = All (λ f. LacksDot f.name) fs × Distinct fs
  HasGoNames _ = Unit

  field_by_json-ne :
      (n segment : Text) (fs : List (StructField B)) (f : StructField B)
      → All (λ g. n ≢ g.name) fs
      → field_by_json segment fs ≡ some f
      → n ≢ f.name
  unfolding field_by_json
  field_by_json-ne n segment [] f h e = cc
  field_by_json-ne n segment (g ∷ fs) f (hg, h) e =
      elim (Bool-cases (is_named segment (json_name g))) [
        | inl t ↦ λ d. hg (d ∙ ground arith)
        | inr t ↦ field_by_json-ne n segment fs f h (ground arith)
      ]

  -- The field that a JSON name finds is the one that its Go name finds.
  field_by_json_sound :
      (segment : Text) (fs : List (StructField B)) (f : StructField B)
      → All (λ g. LacksDot g.name) fs
      → Distinct fs
      → field_by_json segment fs ≡ some f
      → LacksDot f.name × (own_field f.name fs ≡ some f) × (json_name f ≡ some segment)
  unfolding field_by_json own_field
  field_by_json_sound segment [] f h d e = cc
  field_by_json_sound segment (g ∷ fs) f (hg, h) (dg, d) e =
      elim (Bool-cases (is_named segment (json_name g))) [
        | inl t ↦ found (rw t at e) t
        | inr t ↦ later (field_by_json_sound segment fs f h d) (rw t at e)
      ]
    where
      found :
          some g ≡ some f
          → is_named segment (json_name g) ≡ true
          → LacksDot f.name × (own_field f.name (g ∷ fs) ≡ some f) × (json_name f ≡ some segment)
      found p t =
          let q : g ≡ f = cc in
          (
            rw (← q) hg,
            rw (← q, text_eq_refl g.name),
            rw (← q) (is_named_sound segment (json_name g) t),
          )

      later :
          (field_by_json segment fs ≡ some f
            → LacksDot f.name × (own_field f.name fs ≡ some f) × (json_name f ≡ some segment))
          → field_by_json segment fs ≡ some f
          → LacksDot f.name × (own_field f.name (g ∷ fs) ≡ some f) × (json_name f ≡ some segment)
      later ih p =
          let (a, b, c) = ih p in
          (
            a,
            ground (arith, text_eq_iff g.name f.name, field_by_json-ne g.name segment fs f dg p),
            c,
          )

module _ {B : Type 0} (promoted : List (StructField B) → Text → Option (StructField B)) where
  leave_struct :
      (segment : Text) (fs : List (StructField B)) (f : StructField B)
      → own_field f.name fs ≡ some f
      → json_name f ≡ some segment
      → leave promoted f.name (struct fs) ≡ some (segment, f.type)
  unfolding leave field_by_name or_segment
  leave_struct segment fs f own name = ground arith

  kept :
      (segment : Text) (u : Ref B) (key : Text) (t : Ref B)
      → LacksDot segment
      → ◌≡◌ {A = Result (Text × Ref B)} (ok (segment, u)) (ok (key, t))
      → LacksDot key × (◌≡◌ {A = Option (Text × Ref B)} (some (key, u)) (some (segment, t)))
  kept segment u key t l e = let same : segment ≡ key = cc in (rw (← same) l, ground arith)

  indexed :
      (segment : Text) (u : Ref B) (key : Text) (t : Ref B)
      → LacksDot segment
      → (if◌then◌else◌ {A = Result (Text × Ref B)}
          (atoi segment).1
          (ok (segment, u))
          (err (not_index segment)))
        ≡ ok (key, t)
      → LacksDot key × (◌≡◌ {A = Option (Text × Ref B)} (some (key, u)) (some (segment, t)))
  indexed segment u key t l e = elim (Bool-cases (atoi segment).1) [
    | inl b ↦ kept segment u key t l (rw b at e)
    | inr b ↦ cc (rw b at e)
  ]

  -- A key that KeyPath enters by is a key that FromKeyPath leaves by, under the same JSON name.
  enter_sound :
      (segment : Text) (s : Shape B) (key : Text) (t : Ref B)
      → HasGoNames s
      → LacksDot segment
      → enter segment s ≡ ok (key, t)
      → LacksDot key × (leave promoted key s ≡ some (segment, t))
  unfolding enter leave
  enter_sound segment (struct fs) key t (dots, distinct) l e =
      elim (Option-cases (field_by_json segment fs)) [
        | inl n ↦ cc (rw (n, enter) at e)
        | inr (f, p) ↦
            through f (field_by_json_sound segment fs f dots distinct p) (rw (p, enter) at e)
      ]
    where
      through :
          (f : StructField B)
          → (LacksDot f.name × (own_field f.name fs ≡ some f) × (json_name f ≡ some segment))
          → ◌≡◌ {A = Result (Text × Ref B)} (ok (f.name, f.type)) (ok (key, t))
          → LacksDot key × (leave promoted key (struct fs) ≡ some (segment, t))
      through f (a, b, c) p =
          let same_key : f.name ≡ key = cc in
          let same_type : f.type ≡ t = cc in
          (rw (← same_key) a, rw (← same_key, ← same_type) (leave_struct segment fs f b c))
  enter_sound segment (slice u) key t h l e = indexed segment u key t l e
  enter_sound segment (array u) key t h l e = indexed segment u key t l e
  enter_sound segment (mapping u) key t h l e = kept segment u key t l e
  enter_sound segment other key t h l e = cc

module _ {B : Type 0} (shape : B → Shape B)
    (promoted : List (StructField B) → Text → Option (StructField B))
    (names : (b : B) → HasGoNames (shape b)) where
  -- The keys that the loop of KeyPath appends, which the loop of FromKeyPath takes back.
  abbrev Undone : List Text → Ref B → List Text → List Text → Type 0
  Undone segments t keys out =
      (ks : List Text) × (out ≡ keys ++ ks)
      × All LacksDot ks
      × (name_loop shape promoted ks t ≡ segments)

  key_loop_sound :
      (segments : List Text) (t : Ref B) (keys out : List Text) (u : Ref B)
      → All LacksDot segments
      → key_loop shape segments t keys ≡ ok (out, u)
      → Undone segments t keys out
  unfolding key_loop name_loop
  key_loop_sound [] t keys out u h e = ([], cc (append-nil keys), tt, refl)
  key_loop_sound (segment ∷ rest) t keys out u (hs, h) e =
      let (at, entered, e') = split_chain (enter segment (shape (deref t).base)) _ e in
      step at entered (key_loop_sound rest at.1 (keys ++ at.0 ∷ []) out u h e')
    where
      step :
          (at : Text × Ref B)
          → enter segment (shape (deref t).base) ≡ ok at
          → Undone rest at.1 (keys ++ at.0 ∷ []) out
          → Undone (segment ∷ rest) t keys out
      step (key, t') entered (ks, outs, dots, loops) =
          let (dot_free, left) =
            enter_sound promoted segment (shape (deref t).base) key t' (names (deref t).base) hs
              entered in
          (
            key ∷ ks,
            outs ∙ append_assoc keys (key ∷ []) ks,
            (dot_free, dots),
            rw (left, name_loop) (rw loops),
          )

  undone_join :
      (t : Ref B) (path k : Text) (ks : List Text)
      → join ks ≡ k
      → All LacksDot ks
      → name_loop shape promoted ks t ≡ split path
      → join (name_loop shape promoted (split k) t) ≡ path
  undone_join t path k [] j h e = absurd (split-ne-nil path (sym e ∙ (unfold name_loop in refl)))
  undone_join t path k (p ∷ ks) j (hp, h) e = rw (← j, split-join p ks hp h, e) (join-split path)

  -- For types whose structs have the field names that Go allows, a JSON path that KeyPath turns
  -- into a key path is what FromKeyPath makes of that key path.
  pub from_key_path-key_path :
      (t : Option (Ref B)) (path k : Text) (u : Ref B)
      → key_path shape t path ≡ ok (k, u)
      → from_key_path shape promoted t k ≡ path
  unfolding key_path from_key_path
  from_key_path-key_path none path k u e = cc
  from_key_path-key_path (some t) path k u e =
      let (at, looped, e') = split_chain (key_loop shape (split path) t []) _ e in
      let (ks, outs, dots, loops) =
        key_loop_sound (split path) t [] at.0 at.1 (split-All path) looped in
      undone_join t path k ks (ap join (sym outs) ∙ cc e') dots loops
