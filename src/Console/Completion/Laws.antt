-- ===== src/Console/Completion/Laws.antt =====
-- ssh/console.go: what the completion does to the line and to the cursor.
use remotemoe.Prelude.{
  ℕ, zero, suc, ◌+◌, ◌-◌, ◌≤◌, ◌==◌, ◌≡◌, refl, sym, ap, subst, ◌∙◌, true, false, ◌&&◌, not, List,
  [], ◌∷◌, ◌++◌, Option, none, some, length, take, drop, length-append, take-append-drop, arith, In,
  inl, inr, ◌⊎◌, if_elim, Bool-cases,
}
use mathlib.Core.List.{append_assoc, append-nil}
use remotemoe.Text.{Text, text_eq}
use remotemoe.Text.Fields.{Unicode}
use remotemoe.Net.{cut_last}
use remotemoe.Net.Shape.{cut_last-eq-some}
use remotemoe.Console.Completion.{
  SubCommand, Command, Cobra, Completed, tab, word_before, has_prefix, suggestions, suggestions_of,
  complete_with, command_at, complete,
}

has_prefix-append : (s t : Text) → has_prefix s t ≡ true → t ++ drop (length t) s ≡ s
unfolding has_prefix
has_prefix-append s [] h = refl
has_prefix-append [] (d ∷ t) h = cc
has_prefix-append (c ∷ s) (d ∷ t) h = ground (arith, has_prefix-append s t)

length-drop : {A : Type 0} (k : ℕ) (s : List A) → length (drop k s) ≡ length s - k
length-drop zero s = omega arith
length-drop (suc k) [] = omega arith
length-drop (suc k) (c ∷ s) = omega (arith, length-drop k s)

length-has_prefix : (s t : Text) → has_prefix s t ≡ true → length t ≤ length s
unfolding has_prefix
length-has_prefix s [] h = omega arith
length-has_prefix [] (d ∷ t) h = cc
length-has_prefix (c ∷ s) (d ∷ t) h = ground (arith, length-has_prefix s t)

-- The command is suggested for the word, as `name`.
abbrev pub Suggests : Text → Text → SubCommand → Type 0
Suggests word name c = (c.name ≡ name) × (c.hidden ≡ false) × (has_prefix name word ≡ true)

abbrev pub Suggested : Text → Text → List SubCommand → Type 0
Suggested word name cs = (c : SubCommand) × In c cs × Suggests word name c

In-suggestions :
    (word name : Text) (cs : List SubCommand)
    → In name (suggestions word cs)
    → Suggested word name cs
unfolding suggestions
In-suggestions word name [] i = absurd i
In-suggestions word name (c ∷ cs) i = elim (Bool-cases (not c.hidden && has_prefix c.name word)) [
  | inl shown ↦ elim (rw shown at i) [
    | inl e ↦ (c, inl refl, (sym e, ground (arith, shown), ground (arith, shown, e)))
    | inr j ↦ let (d, k, q) = In-suggestions word name cs j in (d, inr k, q)
  ]
  | inr left_out ↦ let (d, k, q) = In-suggestions word name cs (rw left_out at i) in (d, inr k, q)
]

-- What is inserted into a line at the cursor.
abbrev pub IsInsertion : Text → ℕ → Completed → Type 0
IsInsertion line pos r =
    (inserted : Text) × (r.line ≡ take pos line ++ (inserted ++ drop pos line))
    × (r.pos ≡ pos + length inserted)
    × ((r.done ≡ true) ⊎ (inserted ≡ []))

complete_with-IsInsertion :
    (line : Text) (pos : ℕ) (word : Text) (ss : List Text)
    → ((s : Text) → In s ss → has_prefix s word ≡ true)
    → IsInsertion line pos (complete_with (take pos line) (drop pos line) pos word ss)
complete_with-IsInsertion line pos word [] h = ([], refl, omega arith, inr refl)
complete_with-IsInsertion line pos word (s ∷ []) h = part (drop pos line) refl
  where
    part :
        (t : Text)
        → drop pos line ≡ t
        → IsInsertion line pos (complete_with (take pos line) (drop pos line) pos word (s ∷ []))
    part [] e = (
      drop (length word) s ++ b' ' ∷ [],
      rw (e, append-nil),
      rw e (
          omega (
            arith,
            length-append (drop (length word) s) (b' ' ∷ []),
            length-drop (length word) s,
            length-has_prefix s word (h s (inl refl)),
          )),
      inl (rw e),
    )
    part (c ∷ t) e = (
      drop (length word) s,
      rw e,
      rw e (omega (arith, length-drop (length word) s, length-has_prefix s word (h s (inl refl)))),
      inl (rw e),
    )
complete_with-IsInsertion line pos word (s ∷ r ∷ ss) h = ([], refl, omega arith, inr refl)

length-take : {A : Type 0} (k : ℕ) (s : List A) → k ≤ length s → length (take k s) ≡ k
length-take zero s h = omega arith
length-take (suc k) [] h = omega arith
length-take (suc k) (c ∷ s) h = omega (arith, length-take k s)

In-suggestions_of :
    (command : Command) (word name : Text)
    → In name (suggestions_of command word)
    → Suggested word name command.commands
unfolding suggestions_of
In-suggestions_of command word name i = elim (Bool-cases command.has_available) [
  | inl some_there ↦ In-suggestions word name command.commands (rw some_there at i)
  | inr none_there ↦ absurd (rw none_there at i)
]

inserts :
    (u : Unicode) (cobra : Cobra) (line : Text) (pos key : ℕ)
    → IsInsertion line pos (complete u cobra line pos key)
unfolding complete
inserts u cobra line pos key =
    if_elim (IsInsertion line pos) (key == tab) _ _
      (λ tabbed.
        if_elim (IsInsertion line pos) (text_eq command.name word) _ _
          (λ named. (b' ' ∷ [], refl, omega arith, inl refl))
          (λ other.
            complete_with-IsInsertion line pos word (suggestions_of command word)
              (λ s i. (In-suggestions_of command word s i).2.2)))
      (λ other. nothing)
  where
    word : Text
    word = word_before (take pos line)

    command : Command
    command = command_at u cobra (take pos line) (drop pos line)

    nothing : IsInsertion line pos (record { line = line; pos = pos; done = false; printed = [] })
    nothing = ([], sym (take-append-drop pos line), omega arith, inr refl)

-- Whatever the key and the commands, the completion leaves the text before and behind the cursor as
-- it was: it inserts a text between, puts the cursor behind that, and so within the line.
pub complete-IsInsertion :
    (u : Unicode) (cobra : Cobra) (line : Text) (pos key : ℕ)
    → pos ≤ length line
    → IsInsertion line pos (complete u cobra line pos key)
      × ((complete u cobra line pos key).pos ≤ length (complete u cobra line pos key).line)
complete-IsInsertion u cobra line pos key h =
    let (inserted, text, cursor, done) = inserts u cobra line pos key in
    (
      (inserted, text, cursor, done),
      omega (
        arith,
        cursor,
        ap length text,
        length-append (take pos line) (inserted ++ drop pos line),
        length-append inserted (drop pos line),
        length-take pos line h,
      ),
    )

word_before_lem : (s : Text) → (start : Text) × (s ≡ start ++ word_before s)
unfolding word_before
word_before_lem s = part (cut_last b' ' s) refl
  where
    part :
        (o : Option (Text × Text))
        → cut_last b' ' s ≡ o
        → (start : Text) × (s ≡ start ++ elim o [ none ↦ s | some (before, word) ↦ word ])
    part none e = ([], refl)
    part (some (before, word)) e = (
      before ++ b' ' ∷ [],
      (cut_last-eq-some b' ' s before word e).0 ∙ sym (append_assoc before (b' ' ∷ []) word),
    )

-- What stands behind a completed word: the rest of the line, or a space at its end.
abbrev pub behind : Text → Text
behind [] = b' ' ∷ []
behind (c ∷ t) = c ∷ t

module _ (u : Unicode) (cobra : Cobra) (line : Text) (pos : ℕ) where
  -- The word before the cursor, and the command that it belongs to.
  abbrev pub word_at : Text
  word_at = word_before (take pos line)

  abbrev pub command_here : Command
  command_here = command_at u cobra (take pos line) (drop pos line)

  answer_one :
      (s : Text)
      → has_prefix s word_at ≡ true
      → (start : Text) → take pos line ≡ start ++ word_at
      → (complete_with (take pos line) (drop pos line) pos word_at (s ∷ [])).line
        ≡ start ++ (s ++ behind (drop pos line))
  answer_one s h start e = part (drop pos line) refl
    where
      whole : take pos line ++ drop (length word_at) s ≡ start ++ s
      whole =
          ap (λ t. t ++ drop (length word_at) s) e
          ∙ append_assoc start word_at (drop (length word_at) s)
          ∙ ap (λ t. start ++ t) (has_prefix-append s word_at h)

      spliced : (t : Text) → take pos line ++ (drop (length word_at) s ++ t) ≡ start ++ (s ++ t)
      spliced t =
          sym (append_assoc (take pos line) (drop (length word_at) s) t)
          ∙ ap (λ x. x ++ t) whole
          ∙ append_assoc start s t

      part :
          (t : Text)
          → drop pos line ≡ t
          → (complete_with (take pos line) (drop pos line) pos word_at (s ∷ [])).line
            ≡ start ++ (s ++ behind (drop pos line))
      part [] e = rw e (spliced (b' ' ∷ []))
      part (c ∷ t) e = rw e (spliced (c ∷ t))

  -- A tab on a word that is not the name of its command, where one command alone is suggested:
  -- that is a command which is not hidden and begins with the word, and it takes the word's place,
  -- with a space behind it at the end of the line.
  pub complete_unique :
      (s : Text)
      → text_eq command_here.name word_at ≡ false
      → suggestions_of command_here word_at ≡ s ∷ []
      → Suggested word_at s command_here.commands
        × ((start : Text) × (take pos line ≡ start ++ word_at)
            × ((complete u cobra line pos tab).line ≡ start ++ (s ++ behind (drop pos line))))
  unfolding complete
  complete_unique s other one =
      let named = In-suggestions_of command_here word_at s (subst (In s) (sym one) (inl refl)) in
      let (start, e) = word_before_lem (take pos line) in
      (named, (start, e, rw (other, one) (answer_one s named.2.2 start e)))
