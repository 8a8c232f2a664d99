-- ===== src/Gzasm/Choice.antt =====
-- gzasm/gzasm.go: which encoding of a file is served.
use zugoui.Prelude.{
  ℕ, Text, lookup, text_eq, text_eq_sound, text_eq_iff, List, [], ◌++◌, codes, Bool, true, false,
  Option, none, some, ◌≡◌, ◌↔◌, inl, inr, refl, sym, ap, ◌∙◌, subst, Bool-cases, if◌then◌else◌,
}
use zugoui.Gzasm.{
  Request, method_get, ext_wasm, br, gzip, extension, accepts, member, choose, can_serve, preferred,
}
use zugoui.Gzasm.Strings.{ext}
use zugoui.Gzasm.Accepting.{Lists, member-Lists, br-IsName, gzip-IsName}

-- The encoding is listed and its file is there; gzip gives way to br.
pub data Best (stat : Text → Option ℕ) (r : Request) : Text → ℕ → Type 0 where
  best_br :
      {size : ℕ}
      → Lists r (codes "br")
      → stat (Request.path r ++ codes ".br") ≡ some size
      → Best stat r (codes "br") size
  best_gzip :
      {size : ℕ}
      → Lists r (codes "gzip")
      → stat (Request.path r ++ codes ".gz") ≡ some size
      → (Lists r (codes "br") → stat (Request.path r ++ codes ".br") ≡ none)
      → Best stat r (codes "gzip") size

-- The request is a GET of a wasm file, and not of a range of it.
abbrev pub Eligible : Request → Type 0
Eligible r =
    (Request.method r ≡ codes "GET")
    × (ext (Request.path r) ≡ codes ".wasm")
    × (Request.range r ≡ [])

module _ (stat : Text → Option ℕ) (r : Request) where
  accepted : List Text
  accepted = accepts r

  path : Text
  path = Request.path r

  -- the choices of the loop, with the tests and the files that it looks at
  chosen : Bool → Option ℕ → Bool → Option ℕ → Option (Text × ℕ)
  chosen b at_br g at_gzip =
      let rest : Option (Text × ℕ) =
        if g then elim at_gzip [ none ↦ none | some n ↦ some (gzip, n) ] else none in
      if b then elim at_br [ none ↦ rest | some n ↦ some (br, n) ] else rest

  choose-chosen :
      choose stat preferred accepted path
      ≡ chosen
          (member br accepted)
          (stat (path ++ codes ".br"))
          (member gzip accepted)
          (stat (path ++ codes ".gz"))
  unfolding choose chosen accepted path extension lookup text_eq
  choose-chosen = refl

  chosen-Best :
      (b g : Bool) (x y : Option ℕ) (e : Text) (n : ℕ)
      → member br accepted ≡ b
      → stat (path ++ codes ".br") ≡ x
      → member gzip accepted ≡ g
      → stat (path ++ codes ".gz") ≡ y
      → chosen b x g y ≡ some (e, n)
      → Best stat r e n
  unfolding chosen accepted path
  chosen-Best true g (some m) y e n hb hx hg hy h =
      let p : br ≡ e = cc in
      let q : m ≡ n = cc in
      subst (λ e. Best stat r e n) p (best_br ((member-Lists r br br-IsName).0 hb) (hx ∙ ap some q))
  chosen-Best true true none none e n hb hx hg hy h = absurd cc
  chosen-Best true true none (some m) e n hb hx hg hy h =
      let p : gzip ≡ e = cc in
      let q : m ≡ n = cc in
      subst (λ e. Best stat r e n) p
        (best_gzip ((member-Lists r gzip gzip-IsName).0 hg) (hy ∙ ap some q) (λ a. hx))
  chosen-Best true false none y e n hb hx hg hy h = absurd cc
  chosen-Best false true x (some m) e n hb hx hg hy h =
      let p : gzip ≡ e = cc in
      let q : m ≡ n = cc in
      subst (λ e. Best stat r e n) p
        (best_gzip ((member-Lists r gzip gzip-IsName).0 hg) (hy ∙ ap some q)
          (λ a. let listed = (member-Lists r br br-IsName).1 a in absurd cc))
  chosen-Best false true x none e n hb hx hg hy h = absurd cc
  chosen-Best false false x y e n hb hx hg hy h = absurd cc

  Best-chosen :
      (e : Text) (n : ℕ) → Best stat r e n → choose stat preferred accepted path ≡ some (e, n)
  unfolding chosen accepted path
  Best-chosen e n (best_br a f) = rw (choose-chosen, (member-Lists r br br-IsName).1 a, f) refl
  Best-chosen e n (best_gzip a f no_br) = elim (Bool-cases (member br accepted)) [
    | inl b ↦
        rw
          (
            choose-chosen,
            b,
            no_br ((member-Lists r br br-IsName).0 b),
            (member-Lists r gzip gzip-IsName).1 a,
            f,
          )
          refl
    | inr b ↦ rw (choose-chosen, b, (member-Lists r gzip gzip-IsName).1 a, f) refl
  ]

  -- A file of some size is served with some encoding just where the request is a GET of a path with
  -- the extension .wasm, and not of a range, and the encoding is the first of br and gzip that
  -- stands alone, between spaces and commas and with no weight, in Accept-Encoding, and for which a
  -- file of that size is there: at the path and .br, or at the path and .gz.
  pub can_serve-Best :
      (e : Text) (n : ℕ) → (can_serve stat r ≡ some (e, n)) ↔ (Eligible r × Best stat r e n)
  unfolding can_serve accepted path
  can_serve-Best e n = (to, back)
    where
      best : choose stat preferred (accepts r) (Request.path r) ≡ some (e, n) → Best stat r e n
      best h = chosen-Best _ _ _ _ e n refl refl refl refl (sym choose-chosen ∙ h)

      to : can_serve stat r ≡ some (e, n) → Eligible r × Best stat r e n
      to h = elim (Bool-cases (text_eq (Request.method r) method_get)) [
        | inr m ↦ let h' = rw m at h in absurd cc
        | inl m ↦ elim (Bool-cases (text_eq (ext (Request.path r)) ext_wasm)) [
          | inr x ↦ let h' = rw (m, x) at h in absurd cc
          | inl x ↦ elim (Bool-cases (text_eq (Request.range r) [])) [
            | inr g ↦ let h' = rw (m, x, g) at h in absurd cc
            | inl g ↦ (
              (text_eq_sound _ _ m, text_eq_sound _ _ x, text_eq_sound _ _ g),
              best (rw (m, x, g) at h),
            )
          ]
        ]
      ]

      back : Eligible r × Best stat r e n → can_serve stat r ≡ some (e, n)
      back ((m, x, g), b) =
          let m' = (text_eq_iff (Request.method r) method_get).1 m in
          let x' = (text_eq_iff (ext (Request.path r)) ext_wasm).1 x in
          let g' = (text_eq_iff (Request.range r) []).1 g in rw (m', x', g') (Best-chosen e n b)
