-- ===== src/Router/Locks.antt =====
-- routertwo/router.go: the two locks of the router. An edit holds editLock from begin to finish, and
-- exchange holds the RWMutex; Find, Exists and DialContext hold it for reading while they look into
-- the active table, and so does Names while it reads the index. index and reduceIndex write the
-- index within an edit, before the exchange.
use remotemoe.Prelude.{
  ◌≡◌, refl, sym, subst, ◌∙◌, ◌≢◌, Bool, true, false, List, [], ◌∷◌, ◌++◌, inl, inr, In,
}
use remotemoe.Router.{Side, side_a, side_b, other}

-- Where the holder of editLock is: it works on the table that is not active, and after the exchange
-- on the one that was.
pub data Phase : Type 0 where
  idle : Phase
  edits_next edits_old : Side → Phase

-- What a reader looks into.
pub data Reader : Type 0 where
  in_table : Side → Reader
  in_index : Reader

-- `indexing` tells that the editor is in index or reduceIndex.
pub record Locks : Type 0 where
  pub phase : Phase
  pub indexing : Bool
  pub active : Side
  pub readers : List Reader

-- The steps that the locks allow, with many readers and one editor.
pub data LockStep : Locks → Locks → Type 0 where
  begins :
      (l : Locks) → l.phase ≡ idle → LockStep l (record l { phase = edits_next (other l.active) })
  exchanges :
      (l : Locks) (s : Side)
      → l.phase ≡ edits_next s
      → l.indexing ≡ false
      → l.readers ≡ []
      → LockStep l (record l { phase = edits_old (other s); active = s })
  starts_index :
      (l : Locks) (s : Side)
      → l.phase ≡ edits_next s
      → l.indexing ≡ false
      → LockStep l (record l { indexing = true })
  stops_index : (l : Locks) → l.indexing ≡ true → LockStep l (record l { indexing = false })
  fails :
      (l : Locks) (s : Side)
      → l.phase ≡ edits_next s
      → l.indexing ≡ false
      → LockStep l (record l { phase = idle })
  finishes : (l : Locks) (s : Side) → l.phase ≡ edits_old s → LockStep l (record l { phase = idle })
  enters_table : (l : Locks) → LockStep l (record l { readers = in_table l.active ∷ l.readers })
  enters_index : (l : Locks) → LockStep l (record l { readers = in_index ∷ l.readers })
  leaves :
      (l : Locks) (r : Reader) (before after : List Reader)
      → l.readers ≡ before ++ r ∷ after
      → LockStep l (record l { readers = before ++ after })

pub data Locked : Locks → Type 0 where
  unlocked :
      (s : Side) → Locked (record { phase = idle; indexing = false; active = s; readers = [] })
  moved : (l m : Locks) → Locked l → LockStep l m → Locked m

-- The table that the editor writes.
abbrev pub Writes : Phase → Side → Type 0
Writes idle s = ⊥
Writes (edits_next t) s = t ≡ s
Writes (edits_old t) s = t ≡ s

-- Readers of tables are in the active one, and the editor writes the other.
record IsApart (l : Locks) : Type 0 where
  reading : (s : Side) → In (in_table s) l.readers → s ≡ l.active
  writing : (s : Side) → Writes l.phase s → s ≡ other l.active

In-without :
    (x r : Reader) (before after : List Reader)
    → In x (before ++ after)
    → In x (before ++ r ∷ after)
In-without x r [] after i = inr i
In-without x r (b ∷ before) after (inl e) = inl e
In-without x r (b ∷ before) after (inr i) = inr (In-without x r before after i)

other-other : (s : Side) → other (other s) ≡ s
other-other side_a = refl
other-other side_b = refl

same_side : (s t : Side) → in_table s ≡ in_table t → s ≡ t
same_side s t e = cc

no_index : (s : Side) → in_table s ≢ in_index
no_index s e = cc

step-IsApart : (l m : Locks) → LockStep l m → IsApart l → IsApart m
step-IsApart _ _ (begins l e) v = record { reading = v.reading; writing = λ s w. sym w }
step-IsApart _ _ (exchanges l s e done none) v = record {
  reading = λ t i. absurd (subst (In (in_table t)) none i);
  writing = λ t w. sym w;
}
step-IsApart _ _ (starts_index l s e n) v = record { reading = v.reading; writing = v.writing }
step-IsApart _ _ (stops_index l e) v = record { reading = v.reading; writing = v.writing }
step-IsApart _ _ (fails l s e n) v = record { reading = v.reading; writing = λ t w. absurd w }
step-IsApart _ _ (finishes l s e) v = record { reading = v.reading; writing = λ t w. absurd w }
step-IsApart _ _ (enters_table l) v = record {
  reading = λ s i. elim i [ inl e ↦ same_side s l.active e | inr j ↦ v.reading s j ];
  writing = v.writing;
}
step-IsApart _ _ (enters_index l) v = record {
  reading = λ s i. elim i [ inl e ↦ absurd (no_index s e) | inr j ↦ v.reading s j ];
  writing = v.writing;
}
step-IsApart _ _ (leaves l r before after e) v = record {
  reading = λ s i.
      v.reading s (subst (In (in_table s)) (sym e) (In-without (in_table s) r before after i));
  writing = v.writing;
}

Locked-IsApart : (l : Locks) → Locked l → IsApart l
Locked-IsApart _ (unlocked s) = record { reading = λ t i. absurd i; writing = λ t w. absurd w }
Locked-IsApart _ (moved l m k step) = step-IsApart l m step (Locked-IsApart l k)

other_differs : (s : Side) → s ≢ other s
other_differs side_a e = cc
other_differs side_b e = cc

-- In every state that the locks allow, no reader looks into the table that the editor writes.
pub tables_never_race :
    (l : Locks) (s : Side) → Locked l → Writes l.phase s → ¬ In (in_table s) l.readers
tables_never_race l s k w i =
    let v = Locked-IsApart l k in other_differs l.active (sym (v.reading s i) ∙ v.writing s w)
