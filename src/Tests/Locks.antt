-- ===== src/Tests/Locks.antt =====
-- The locks while a reader and an editor are at work.
use remotemoe.Prelude.{refl, false, [], ◌∷◌, In}
use remotemoe.Router.{side_a, side_b}
use remotemoe.Router.Locks.{
  Locks, idle, edits_next, in_table, Locked, unlocked, moved, begins, enters_table,
  tables_never_race,
}

abbrev at_rest : Locks
at_rest = record { phase = idle; indexing = false; active = side_a; readers = [] }

abbrev editing : Locks
editing = record { phase = edits_next side_b; indexing = false; active = side_a; readers = [] }

abbrev reading : Locks
reading = record {
  phase = edits_next side_b;
  indexing = false;
  active = side_a;
  readers = in_table side_a ∷ [];
}

editing-Locked : Locked editing
editing-Locked = moved at_rest editing (unlocked side_a) (begins at_rest refl)

reading-Locked : Locked reading
reading-Locked = moved editing reading editing-Locked (enters_table editing)

tables_never_race_example : ¬ In (in_table side_b) (in_table side_a ∷ [])
tables_never_race_example = tables_never_race reading side_b reading-Locked refl
