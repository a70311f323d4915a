-- ===== src/Shell/Tree.antt =====
-- ssh/defaultcmd.go, ssh/command/session.go, ssh/command/host.go and ssh/command/host: the tree of the
-- commands, with the names, the function and the flags of each.
use remotemoe.Prelude.{ℕ, Bool, List, [], ◌∷◌, Option, none, some}
use remotemoe.Text.{Text, bytes}

-- The functions in the fields Run and RunE of the commands.
pub data Action : Type 0 where
  firsttime close forwards autossh unitfile list add remove remove_all access whoami version :
      Action

-- A *pflag.Flag, with the kind of its value; `changed` is its field Changed, which pflag sets.
pub record Flag : Type 0 where
  pub kind : ℕ
  pub value : Text
  pub def_value : Text
  pub changed : Bool

-- A *cobra.Command without its subcommands: Name(), Aliases, Args, Run or RunE, and LocalFlags().
pub record Node : Type 0 where
  pub name : Text
  pub aliases : List Text
  pub minimum_args : ℕ
  pub run : Option Action
  pub flags : List Flag

mutual
  -- A *cobra.Command with its subcommands.
  pub data Tree : Type 0 where
    tree : Node → Forest → Tree

  pub data Forest : Type 0 where
    no_trees : Forest
    one_tree : Tree → Forest → Forest

-- A command has the flags that cobra gives it.
abbrev pub node : List Flag → Text → Option Action → Node
node flags name run = record {
  name = name;
  aliases = [];
  minimum_args = 0;
  run = run;
  flags = flags;
}

-- Two commands that carry more than a name and a function.
abbrev pub close_node : List Flag → Node
close_node flags = record (node flags (bytes "quit") (some close)) {
  aliases = bytes "exit" ∷ bytes "close" ∷ [];
}

abbrev pub leaf : Node → Tree
leaf n = tree n no_trees

module _ (flags : List Flag) where
  -- Session
  unfoldable pub session_cmd : Tree
  session_cmd = tree (node flags (bytes "session") none) (
      one_tree (leaf (node flags (bytes "forwards") (some forwards))) (
        one_tree (leaf (node flags (bytes "autossh") (some autossh)))
          (one_tree (leaf (node flags (bytes "unitfile") (some unitfile))) no_trees)))

  -- Remove
  unfoldable pub remove_cmd : Tree
  remove_cmd =
      tree (record (node flags (bytes "remove") (some remove)) { minimum_args = 1 })
        (one_tree (leaf (node flags (bytes "all") (some remove_all))) no_trees)

  -- Add
  unfoldable pub add_cmd : Tree
  add_cmd = leaf (record (node flags (bytes "add") (some add)) { minimum_args = 1 })

  -- Host
  unfoldable pub host_cmd : Tree
  unfolding remove_cmd add_cmd
  host_cmd = tree (node flags (bytes "host") none) (
      one_tree (leaf (node flags (bytes "list") (some list)))
        (one_tree remove_cmd (one_tree add_cmd no_trees)))

  -- DefaultCmd
  unfoldable pub default_cmd : Tree
  unfolding session_cmd host_cmd
  default_cmd = tree (node flags (bytes "main") none) (
      one_tree (leaf (node flags (bytes "firsttime") (some firsttime))) (
        one_tree (leaf (close_node flags)) (
          one_tree session_cmd (
            one_tree host_cmd (
              one_tree (leaf (node flags (bytes "access") (some access))) (
                one_tree (leaf (node flags (bytes "whoami") (some whoami)))
                  (one_tree (leaf (node flags (bytes "version") (some version))) no_trees)))))))
