-- ===== src/Shell/Reset.antt =====
-- ssh/defaultcmd.go: CommandReset, which a console calls after each line, so that no line finds the
-- flags of another. What Set makes of a text, for each kind of value, is pflag's.
use remotemoe.Prelude.{ℕ, ◌≡◌, refl, List, [], ◌∷◌, Option, none, some}
use remotemoe.Text.{Text}
use remotemoe.Shell.Tree.{Flag, Tree, Forest, tree, no_trees, one_tree}

module _ (set : ℕ → Text → Option Text) where
  -- `flag.Value.Set(flag.DefValue)`, whose error is ignored.
  abbrev pub set_or : Text → Option Text → Text
  set_or old none = old
  set_or old (some new) = new

  unfoldable pub reset_flag : Flag → Flag
  reset_flag f = record f { value = set_or f.value (set f.kind f.def_value) }

  -- VisitAll
  unfoldable pub reset_flags : List Flag → List Flag
  unfolding reset_flag
  reset_flags [] = []
  reset_flags (f ∷ fs) = reset_flag f ∷ reset_flags fs

  -- CommandReset
  unfoldable mutual
    unfolding reset_flags

    pub command_reset : Tree → Tree
    command_reset (tree n ts) = tree (record n { flags = reset_flags n.flags }) (commands_reset ts)

    pub commands_reset : Forest → Forest
    commands_reset no_trees = no_trees
    commands_reset (one_tree t ts) = one_tree (command_reset t) (commands_reset ts)

-- Set makes of the text of each default that default.
abbrev pub Settable : (ℕ → Text → Option Text) → List Flag → Type 0
Settable set [] = Unit {0}
Settable set (f ∷ fs) = (set f.kind f.def_value ≡ some f.def_value) × Settable set fs

-- Each flag has its default value.
abbrev pub AtDefault : List Flag → Type 0
AtDefault [] = Unit {0}
AtDefault (f ∷ fs) = (f.value ≡ f.def_value) × AtDefault fs

unfoldable mutual
  pub IsSettable : (ℕ → Text → Option Text) → Tree → Type 0
  IsSettable set (tree n ts) = Settable set n.flags × AreSettable set ts

  pub AreSettable : (ℕ → Text → Option Text) → Forest → Type 0
  AreSettable set no_trees = Unit {0}
  AreSettable set (one_tree t ts) = IsSettable set t × AreSettable set ts

unfoldable mutual
  pub IsAtDefault : Tree → Type 0
  IsAtDefault (tree n ts) = AtDefault n.flags × AreAtDefault ts

  pub AreAtDefault : Forest → Type 0
  AreAtDefault no_trees = Unit {0}
  AreAtDefault (one_tree t ts) = IsAtDefault t × AreAtDefault ts

module _ (set : ℕ → Text → Option Text) where
  reset_flags_lem :
      (fs : List Flag)
      → Settable set fs
      → AtDefault (reset_flags set fs) × Settable set (reset_flags set fs)
  unfolding reset_flags reset_flag
  reset_flags_lem [] s = (tt, tt)
  reset_flags_lem (f ∷ fs) (e, s) =
      let (at_default, settable) = reset_flags_lem fs s in ((rw e refl, at_default), (e, settable))

  mutual
    unfolding command_reset IsSettable IsAtDefault

    pub command_reset_lem :
        (t : Tree)
        → IsSettable set t
        → IsAtDefault (command_reset set t) × IsSettable set (command_reset set t)
    command_reset_lem (tree n ts) s =
        let (d, e) = reset_flags_lem n.flags s.0 in
        let (ds, es) = commands_reset_lem ts s.1 in ((d, ds), (e, es))

    commands_reset_lem :
        (ts : Forest)
        → AreSettable set ts
        → AreAtDefault (commands_reset set ts) × AreSettable set (commands_reset set ts)
    commands_reset_lem no_trees s = (tt, tt)
    commands_reset_lem (one_tree t ts) s =
        let (d, e) = command_reset_lem t s.0 in
        let (ds, es) = commands_reset_lem ts s.1 in ((d, ds), (e, es))
