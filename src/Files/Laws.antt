-- ===== src/Files/Laws.antt =====
-- package path: the file of a name without slashes lies in the directory and belongs to that name
-- alone, and a name that climbs does not stay in the directory.
use mathlib.Core.List.{reverse, reverse-cons, append_assoc}
use remotemoe.Prelude.{
  ℕ, ◌≡◌, refl, sym, ap, ◌∙◌, ◌≢◌, Bool, true, false, List, [], ◌∷◌, ◌++◌, ◌==◌, if◌then◌else◌,
  arith, Bool-cases, inl, inr,
}
use remotemoe.Text.{Text, text_eq_iff, text_eq_refl}
use remotemoe.Files.{
  split_slash, resolve, resolve_all, join_slash, is_rooted, or_dot, clean, path_join, dot, dot_dot,
}

-- No slash.
abbrev pub IsSlashFree : Text → Type 0
IsSlashFree [] = Unit {0}
IsSlashFree (c ∷ s) = ((c == b'/') ≡ false) × IsSlashFree s

split_slash_free : (s : Text) → IsSlashFree s → split_slash s ≡ s ∷ []
unfolding split_slash
split_slash_free [] h = refl
split_slash_free (c ∷ s) h = ground (arith, split_slash_free s)

split_slash_cases : (s : Text) → (p : Text) × (ps : List Text) × (split_slash s ≡ p ∷ ps)
unfolding split_slash
split_slash_cases [] = ([], [], refl)
split_slash_cases (c ∷ s) = elim (Bool-cases (c == b'/')) [
  | inl slash ↦ ([], split_slash s, rw slash)
  | inr other ↦ let (p, ps, e) = split_slash_cases s in (c ∷ p, ps, rw (other, e))
]

split_slash-append : (s t : Text) → split_slash (s ++ b'/' ∷ t) ≡ split_slash s ++ split_slash t
unfolding split_slash
split_slash-append [] t = refl
split_slash-append (c ∷ s) t =
    let (p, ps, e) = split_slash_cases s in ground (arith, split_slash-append s t, e)

resolve_all-append :
    (rooted : Bool) (stack ps : List Text) (p : Text)
    → resolve_all rooted stack (ps ++ p ∷ []) ≡ resolve rooted (resolve_all rooted stack ps) p
unfolding resolve_all
resolve_all-append rooted stack [] p = refl
resolve_all-append rooted stack (q ∷ ps) p = resolve_all-append rooted (resolve rooted stack q) ps p

-- Each element with a slash behind it.
prefix : List Text → Text
prefix [] = []
prefix (p ∷ ps) = p ++ b'/' ∷ prefix ps

join_slash-append : (ps : List Text) (p : Text) → join_slash (ps ++ p ∷ []) ≡ prefix ps ++ p
unfolding join_slash prefix
join_slash-append [] p = refl
join_slash-append (q ∷ []) p = sym (append_assoc q (b'/' ∷ []) p)
join_slash-append (q ∷ r ∷ ps) p =
    ap (λ x. q ++ b'/' ∷ x) (join_slash-append (r ∷ ps) p)
    ∙ sym (append_assoc q (b'/' ∷ prefix (r ∷ ps)) p)

abbrev pub IsOrdinary : Text → Type 0
IsOrdinary p = (p ≢ []) × (p ≢ dot) × (p ≢ dot_dot)

resolve_ordinary :
    (rooted : Bool) (stack : List Text) (p : Text)
    → IsOrdinary p
    → resolve rooted stack p ≡ p ∷ stack
unfolding resolve
resolve_ordinary rooted stack p h =
    ground (arith, text_eq_iff p [], text_eq_iff p dot, text_eq_iff p dot_dot)

-- The elements of a cleaned directory, and its text with the slash behind it.
dirs : Text → List Text
dirs d = reverse (resolve_all (is_rooted d) [] (split_slash d))

pub folder : Text → Text
folder d = if is_rooted d then b'/' ∷ prefix (dirs d) else prefix (dirs d)

concat-ne-nil : (s : Text) (c : ℕ) (t : Text) → s ++ c ∷ t ≢ []
concat-ne-nil [] c t e = cc
concat-ne-nil (d ∷ s) c t e = cc

or_dot_ne : (s : Text) → s ≢ [] → or_dot s ≡ s
or_dot_ne [] h = absurd (h refl)
or_dot_ne (c ∷ s) h = refl

is_rooted-append : (c : ℕ) (s t : Text) → is_rooted ((c ∷ s) ++ t) ≡ is_rooted (c ∷ s)
unfolding is_rooted
is_rooted-append c s t = refl

resolved :
    (d : Text) (x : ℕ) (t : Text) (rooted : Bool)
    → IsSlashFree (x ∷ t)
    → IsOrdinary (x ∷ t)
    → join_slash (reverse (resolve_all rooted [] (split_slash (d ++ b'/' ∷ x ∷ t))))
      ≡ prefix (reverse (resolve_all rooted [] (split_slash d))) ++ x ∷ t
resolved d x t rooted free ordinary =
    rw
      (
        split_slash-append d (x ∷ t),
        split_slash_free (x ∷ t) free,
        resolve_all-append rooted [] (split_slash d) (x ∷ t),
        resolve_ordinary rooted (resolve_all rooted [] (split_slash d)) (x ∷ t) ordinary,
        reverse-cons,
      )
      (join_slash-append _ (x ∷ t))

-- A name without slashes is a file of the cleaned directory.
pub path_join_free :
    (c : ℕ) (d : Text) (x : ℕ) (t : Text)
    → IsSlashFree (x ∷ t)
    → IsOrdinary (x ∷ t)
    → path_join (c ∷ d) (x ∷ t) ≡ folder (c ∷ d) ++ x ∷ t
unfolding path_join clean folder dirs
path_join_free c d x t free ordinary = ground (
  arith,
  is_rooted-append c d (b'/' ∷ x ∷ t),
  resolved (c ∷ d) x t true free ordinary,
  resolved (c ∷ d) x t false free ordinary,
  or_dot_ne _ (concat-ne-nil (prefix (reverse (resolve_all false [] (split_slash (c ∷ d))))) x t),
)

climbed :
    (d x : Text)
    → IsOrdinary d
    → IsOrdinary x
    → resolve_all false [] (d ∷ dot_dot ∷ x ∷ []) ≡ x ∷ []
unfolding resolve_all resolve
climbed d x p q = ground (
  arith,
  text_eq_iff d [],
  text_eq_iff d dot,
  text_eq_iff d dot_dot,
  text_eq_iff dot_dot [],
  text_eq_iff dot_dot dot,
  text_eq_refl dot_dot,
  text_eq_iff x [],
  text_eq_iff x dot,
  text_eq_iff x dot_dot,
)

climbing :
    (d x : Text)
    → IsSlashFree d
    → IsOrdinary d
    → IsSlashFree x
    → IsOrdinary x
    → resolve_all false [] (split_slash (d ++ b'/' ∷ (dot_dot ++ b'/' ∷ x))) ≡ x ∷ []
climbing d x free_d ordinary_d free ordinary =
    rw
      (
        split_slash-append d (dot_dot ++ b'/' ∷ x),
        split_slash_free d free_d,
        split_slash-append dot_dot x,
        split_slash_free dot_dot (refl, (refl, tt)),
        split_slash_free x free,
      )
      (climbed d x ordinary_d ordinary)

-- A name that begins with "../" is a file beside the directory.
pub path_join_climbs :
    (c : ℕ) (d : Text) (x : ℕ) (t : Text)
    → IsSlashFree (c ∷ d)
    → IsOrdinary (c ∷ d)
    → IsSlashFree (x ∷ t)
    → IsOrdinary (x ∷ t)
    → path_join (c ∷ d) (dot_dot ++ b'/' ∷ x ∷ t) ≡ x ∷ t
unfolding path_join clean is_rooted join_slash
path_join_climbs c d x t free_d ordinary_d free ordinary =
    ground (arith, climbing (c ∷ d) (x ∷ t) free_d ordinary_d free ordinary)
