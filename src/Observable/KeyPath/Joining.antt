-- ===== src/Observable/KeyPath/Joining.antt =====
-- observable/path.go: JoinKeyPath against strings.Join.
use zugoui.Prelude.{
  ℕ, Text, text_eq, List, [], ◌∷◌, ◌++◌, append-nil, append_assoc, select, select-append, not, ◌≡◌,
  refl, sym, ◌∙◌, ap,
}
use zugoui.Prelude.Dotted.{dot, join, separated}
use zugoui.Observable.KeyPath.{join_loop, join_key_path}

abbrev pub filled : List Text → List Text
filled = select (λ p. not (text_eq p []))

-- A builder that holds something writes each filled part behind a dot.
join_loop-separated :
    (parts : List Text) (d : ℕ) (out : Text)
    → join_loop parts (d ∷ out) ≡ (d ∷ out) ++ separated (filled parts)
unfolding join_loop separated text_eq
join_loop-separated [] d out = sym (append-nil (d ∷ out))
join_loop-separated ([] ∷ ps) d out = join_loop-separated ps d out
join_loop-separated ((c ∷ p) ∷ ps) d out =
    join_loop-separated ps d ((out ++ dot ∷ []) ++ c ∷ p)
    ∙ ap (λ (t : Text). d ∷ t) (simp append_assoc)

-- JoinKeyPath is strings.Join of the parts that are not empty.
pub join_key_path-join : (parts : List Text) → join_key_path parts ≡ join (filled parts)
unfolding join_key_path join text_eq
join_key_path-join [] = refl
join_key_path-join ([] ∷ ps) = join_key_path-join ps
join_key_path-join ((c ∷ p) ∷ ps) = join_loop-separated ps c p

separated-append : (ps qs : List Text) → separated (ps ++ qs) ≡ separated ps ++ separated qs
unfolding separated
separated-append [] qs = refl
separated-append (p ∷ ps) qs = simp (separated-append ps, append_assoc)

-- A prefix that is itself a joined key path may be joined further.
pub join_key_path_nested :
    (parts rest : List Text)
    → join_key_path (join_key_path parts ∷ rest) ≡ join_key_path (parts ++ rest)
unfolding join_key_path text_eq
join_key_path_nested [] rest = refl
join_key_path_nested ([] ∷ ps) rest = join_key_path_nested ps rest
join_key_path_nested ((c ∷ p) ∷ ps) rest =
    rw (join_loop-separated ps c p)
      (simp (join_loop-separated, select-append, separated-append, append_assoc))
