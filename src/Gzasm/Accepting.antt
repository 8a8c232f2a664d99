-- ===== src/Gzasm/Accepting.antt =====
-- gzasm/gzasm.go: the encodings that a request lists.
use zugoui.Prelude.{
  Text, text_eq, text_eq_iff, text_eq_refl, codes, List, [], ◌∷◌, ◌++◌, All, map, select, true,
  false, not, ◌≡◌, ◌≢◌, ◌⊎◌, ◌↔◌, inl, inr, refl, sym, ap, ◌∙◌, Bool-cases, arith,
}
use zugoui.Gzasm.{Request, accepts, member}
use zugoui.Gzasm.Strings.{is_space, is_empty, trim_left, trim_right, trim_space, split_comma}

abbrev pub Spaces : Text → Type 0
Spaces = All (λ c. is_space c ≡ true)

-- The entry is the name, between spaces.
abbrev pub Names : Text → Text → Type 0
Names e entry =
    (lead : Text) × (trail : Text) × (entry ≡ lead ++ (e ++ trail)) × Spaces lead × Spaces trail

abbrev pub SomeNames : Text → List Text → Type 0
SomeNames e [] = ⊥
SomeNames e (x ∷ xs) = Names e x ⊎ SomeNames e xs

-- An entry of Accept-Encoding, which commas separate, is the name of the encoding alone.
abbrev pub Lists : Request → Text → Type 0
Lists r e = SomeNames e (split_comma (Request.accept_encoding r))

trim_left-cut : (s : Text) → (lead : Text) × (s ≡ lead ++ trim_left s) × Spaces lead
unfolding trim_left
trim_left-cut [] = ([], refl, tt)
trim_left-cut (c ∷ s) =
    let (lead, e, h) = trim_left-cut s in
    elim (Bool-cases (is_space c)) [
      | inl t ↦ (c ∷ lead, rw t (ap (λ (x : Text). c ∷ x) e), (t, h))
      | inr f ↦ ([], rw f refl, tt)
    ]

is_empty-nil : (s : Text) → is_empty s ≡ true → s ≡ []
unfolding is_empty
is_empty-nil [] e = refl
is_empty-nil (c ∷ s) e = absurd cc

trim_right-cut : (s : Text) → (trail : Text) × (s ≡ trim_right s ++ trail) × Spaces trail
unfolding trim_right
trim_right-cut [] = ([], refl, tt)
trim_right-cut (c ∷ s) =
    let (trail, e, h) = trim_right-cut s in
    elim (Bool-cases (is_empty (trim_right s))) [
      | inr f ↦ (trail, rw f (ap (λ (x : Text). c ∷ x) e), h)
      | inl t ↦ elim (Bool-cases (is_space c)) [
        | inr f ↦ (trail, rw (t, f) (ap (λ (x : Text). c ∷ x) e), h)
        | inl sp ↦
            let none : s ≡ trail =
              e ∙ ap (λ (x : Text). x ++ trail) (is_empty-nil (trim_right s) t) in
            (c ∷ trail, rw (t, sp) (ap (λ (x : Text). c ∷ x) none), (sp, h))
      ]
    ]

trim_left-Spaces : (lead s : Text) → Spaces lead → trim_left (lead ++ s) ≡ trim_left s
unfolding trim_left
trim_left-Spaces [] s h = refl
trim_left-Spaces (c ∷ lead) s (t, h) = rw t (trim_left-Spaces lead s h)

trim_right-Spaces : (trail : Text) → Spaces trail → trim_right trail ≡ []
unfolding trim_right is_empty
trim_right-Spaces [] h = refl
trim_right-Spaces (c ∷ trail) (t, h) = rw (trim_right-Spaces trail h, t) refl

-- A name that spaces around it do not change.
abbrev pub IsName : Text → Type 0
IsName e =
    (e ≢ [])
    × ((trail : Text) → trim_left (e ++ trail) ≡ e ++ trail)
    × ((trail : Text) → trim_right trail ≡ [] → trim_right (e ++ trail) ≡ e)

trim_space-Names :
    (e entry : Text) → IsName e → (text_eq (trim_space entry) e ≡ true) ↔ Names e entry
unfolding trim_space
trim_space-Names e entry (n, left, right) = (to, back)
  where
    to : text_eq (trim_right (trim_left entry)) e ≡ true → Names e entry
    to h =
        let same = (text_eq_iff (trim_right (trim_left entry)) e).0 h in
        let (lead, at, sl) = trim_left-cut entry in
        let (trail, end, st) = trim_right-cut (trim_left entry) in
        (
          lead,
          trail,
          at ∙ ap (λ (x : Text). lead ++ x) (end ∙ ap (λ (x : Text). x ++ trail) same),
          sl,
          st,
        )

    back : Names e entry → text_eq (trim_right (trim_left entry)) e ≡ true
    back (lead, trail, at, sl, st) =
        rw
          (
            at,
            trim_left-Spaces lead (e ++ trail) sl,
            left trail,
            right trail (trim_right-Spaces trail st),
          )
          (text_eq_refl e)

not_empty : (e x : Text) → e ≢ [] → text_eq x e ≡ true → is_empty x ≡ false
unfolding is_empty
not_empty e [] n h = absurd (n (sym ((text_eq_iff [] e).0 h)))
not_empty e (c ∷ x) n h = refl

member-cons :
    (e x : Text) (xs : List Text)
    → IsName e
    → ((member e (select (λ x. not (is_empty x)) (map (λ x. trim_space x) xs)) ≡ true)
        ↔ SomeNames e xs)
    → (member e (select (λ x. not (is_empty x)) (map (λ x. trim_space x) (x ∷ xs))) ≡ true)
      ↔ SomeNames e (x ∷ xs)
unfolding member
member-cons e x xs n ih = (to, back)
  where
    kept : List Text
    kept = select (λ x. not (is_empty x)) (map (λ x. trim_space x) (x ∷ xs))

    to : member e kept ≡ true → Names e x ⊎ SomeNames e xs
    to h = elim (Bool-cases (is_empty (trim_space x))) [
      | inl t ↦ inr (ih.0 (rw t at h))
      | inr f ↦ elim (Bool-cases (text_eq (trim_space x) e)) [
        | inl q ↦ inl ((trim_space-Names e x n).0 q)
        | inr d ↦ inr (ih.0 (rw (f, d) at h))
      ]
    ]

    back : Names e x ⊎ SomeNames e xs → member e kept ≡ true
    back (inl names) =
        let q = (trim_space-Names e x n).1 names in rw (not_empty e (trim_space x) n.0 q, q) refl
    back (inr some_names) =
        let q = ih.1 some_names in
        elim (Bool-cases (is_empty (trim_space x))) [
          | inl t ↦ rw t q
          | inr f ↦ rw (f, q) (ground arith)
        ]

member-SomeNames :
    (e : Text) (xs : List Text)
    → IsName e
    → (member e (select (λ x. not (is_empty x)) (map (λ x. trim_space x) xs)) ≡ true)
      ↔ SomeNames e xs
unfolding member
member-SomeNames e [] n = (λ h. cc, λ x. elim x [ ])
member-SomeNames e (x ∷ xs) n = member-cons e x xs n (member-SomeNames e xs n)

-- An encoding is accepted where the request lists it.
pub member-Lists : (r : Request) (e : Text) → IsName e → (member e (accepts r) ≡ true) ↔ Lists r e
unfolding accepts
member-Lists r e n = member-SomeNames e (split_comma (Request.accept_encoding r)) n

pub br-IsName : IsName (codes "br")
unfolding trim_left trim_right is_empty is_space
br-IsName = (λ e. cc, λ trail. refl, λ trail h. rw h refl)

pub gzip-IsName : IsName (codes "gzip")
unfolding trim_left trim_right is_empty is_space
gzip-IsName = (λ e. cc, λ trail. refl, λ trail h. rw h refl)
