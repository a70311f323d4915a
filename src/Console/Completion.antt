-- ===== src/Console/Completion.antt =====
-- ssh/console.go: the callback of the terminal that completes the command before the cursor. The
-- commands are those of cobra: what Find finds, and the subcommands of a command, are parameters.
pub mod Laws
use remotemoe.Prelude.{
  ℕ, zero, suc, ◌+◌, ◌-◌, ◌==◌, Bool, true, false, ◌&&◌, not, List, [], ◌∷◌, ◌++◌, Option, none,
  some, length, take, drop, if◌then◌else◌,
}
use remotemoe.Text.{Text, bytes, text_eq}
use remotemoe.Text.Fields.{Unicode, fields}
use remotemoe.Net.{cut_last}

pub record SubCommand : Type 0 where
  pub name : Text
  pub hidden : Bool

-- A *cobra.Command: Name(), HasAvailableSubCommands() and Commands().
pub record Command : Type 0 where
  pub name : Text
  pub has_available : Bool
  pub commands : List SubCommand

-- The top level command, and what Find answers for arguments, where it gives no error.
pub record Cobra : Type 0 where
  pub top : Command
  pub find : List Text → Option Command

-- What the callback returns, and what it prints on the terminal.
pub record Completed : Type 0 where
  pub line : Text
  pub pos : ℕ
  pub done : Bool
  pub printed : List Text

abbrev pub tab : ℕ
tab = 9

-- The part of the prefix from its last word on.
unfoldable pub word_before : Text → Text
unfolding cut_last
word_before prefix = elim (cut_last b' ' prefix) [ none ↦ prefix | some (before, word) ↦ word ]

unfoldable pub has_prefix : Text → Text → Bool
has_prefix s [] = true
has_prefix [] (d ∷ t) = false
has_prefix (c ∷ s) (d ∷ t) = c == d && has_prefix s t

unfoldable pub suggestions : Text → List SubCommand → List Text
unfolding has_prefix
suggestions word [] = []
suggestions word (c ∷ cs) =
    let rest = suggestions word cs in
    if not c.hidden && has_prefix c.name word then c.name ∷ rest else rest

abbrev pub command_or : Command → Option Command → Command
command_or main none = main
command_or main (some found) = found

abbrev spaces : ℕ → Text
spaces zero = []
spaces (suc n) = b' ' ∷ spaces n

-- "\033[33m" and "\033[0m"
abbrev yellow : Text
yellow = 27 ∷ bytes "[33m"

abbrev plain : Text
plain = 27 ∷ bytes "[0m"

abbrev suggested : Text → List Text → List Text
suggested prefix [] = []
suggested prefix (s ∷ ss) =
    (yellow ++ (spaces (length prefix + 2) ++ (s ++ (plain ++ b'\n' ∷ [])))) ∷ suggested prefix ss

-- The end of the callback, by the suggestions for the word before the cursor.
abbrev pub complete_with : Text → Text → ℕ → Text → List Text → Completed
complete_with prefix postfix pos word [] = record {
  line = prefix ++ postfix;
  pos = pos;
  done = false;
  printed = [];
}
complete_with prefix postfix pos word (s ∷ []) =
    let rest = drop (length word) s in
    elim postfix [
      | [] ↦ record {
        line = prefix ++ (rest ++ b' ' ∷ []);
        pos = pos + 1 + length s - length word;
        done = true;
        printed = [];
      }
      | c ∷ t ↦ record {
        line = prefix ++ (rest ++ c ∷ t);
        pos = pos + length s - length word;
        done = true;
        printed = [];
      }
    ]
complete_with prefix postfix pos word (s ∷ r ∷ ss) = record {
  line = prefix ++ postfix;
  pos = pos;
  done = false;
  printed =
      (bytes "$ "
        ++ (prefix ++ (yellow ++ (bytes "..." ++ (plain ++ (postfix ++ b'\n' ∷ b'\r' ∷ []))))))
      ∷ suggested prefix (s ∷ r ∷ ss);
}

-- The command that the suggestions are for.
unfoldable pub command_at : Unicode → Cobra → Text → Text → Command
unfolding fields
command_at u cobra prefix postfix =
    command_or cobra.top (cobra.find (fields u (prefix ++ tab ∷ postfix)))

unfoldable pub suggestions_of : Command → Text → List Text
unfolding suggestions
suggestions_of command word =
    if command.has_available then suggestions word command.commands else []

-- AutoCompleteCallback. The terminal calls it with a position in the line.
unfoldable pub complete : Unicode → Cobra → Text → ℕ → ℕ → Completed
unfolding command_at word_before suggestions_of
complete u cobra line pos key =
    let prefix = take pos line in
    let postfix = drop pos line in
    let word = word_before prefix in
    let command = command_at u cobra prefix postfix in
    if key == tab
    then (if text_eq command.name word
        then record { line = prefix ++ b' ' ∷ postfix; pos = pos + 1; done = true; printed = [] }
        else complete_with prefix postfix pos word (suggestions_of command word))
    else record { line = line; pos = pos; done = false; printed = [] }
