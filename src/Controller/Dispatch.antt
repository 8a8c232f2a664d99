-- ===== src/Controller/Dispatch.antt =====
-- controller/controller.go: which target an action of the page reaches.
use zugoui.Prelude.{
  ℕ, Text, text_eq, [], ◌∷◌, ◌++◌, without, Option, none, some, if◌then◌else◌, ◌≡◌, refl, arith,
  Bool-cases, inl, inr, lookup-insert, lookup-without,
}
use zugoui.Controller.{Controller, action, cut_prefix, bind_action}

cut_prefix-append : (ps s : Text) → cut_prefix (ps ++ s) ps ≡ some s
unfolding cut_prefix
cut_prefix-append [] s = refl
cut_prefix-append (p ∷ ps) s = ground (arith, cut_prefix-append ps s)

module _ {A : Type 0} where
  -- the target of a new binding
  abbrev pub answered : A → Text → Option ℕ → Option (A × Text)
  answered target name none = none
  answered target name (some h) = some (target, name)

  -- After BindAction, the action reaches the new target with its name, or no target when the browser
  -- refused the binding, and every other action reaches the target that it reached before.
  pub action-bind_action :
      (element name other : Text) (target : A) (answer : Option ℕ) (c : Controller A)
      → action (c.prefix ++ other) (bind_action element name target answer c).0 ≡ (
          if text_eq name other then answered target other answer else action (c.prefix ++ other) c)
  unfolding action bind_action
  action-bind_action element name other target none c =
      rw (cut_prefix-append c.prefix other, lookup-without name other c.actions) (ground arith)
  action-bind_action element name other target (some h) c =
      rw
        (
          cut_prefix-append c.prefix other,
          lookup-insert name other (record { handle = h; target = target })
              (without name c.actions),
          lookup-without name other c.actions,
        )
        (elim (Bool-cases (text_eq name other)) [ inl t ↦ rw t refl | inr n ↦ rw n refl ])
