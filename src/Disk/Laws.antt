-- ===== src/Disk/Laws.antt =====
-- Router.store and Router.unlink of routertwo/router.go: the file of a name.
use mathlib.Core.List.{append_cancel_left, append_cancel_right}
use remotemoe.Prelude.{ℕ, ◌+◌, ◌≡◌, refl, sym, ap, ◌∙◌, [], ◌∷◌, ◌++◌, arith, length, length-append}
use remotemoe.Text.{Text, bytes}
use remotemoe.Files.{path_join, dot_dot}
use remotemoe.Files.Laws.{IsSlashFree, IsOrdinary, folder, path_join_free, path_join_climbs}
use remotemoe.Disk.{file}

abbrev json_end : Text
json_end = bytes ".json"

file_name-IsSlashFree : (n : Text) → IsSlashFree n → IsSlashFree (n ++ json_end)
file_name-IsSlashFree [] h = (refl, (refl, (refl, (refl, (refl, tt)))))
file_name-IsSlashFree (c ∷ n) h = (h.0, file_name-IsSlashFree n h.1)

file_name_long : (n : Text) → length (n ++ json_end) ≡ length n + 5
file_name_long n = omega (arith, length-append n json_end)

file_name-IsOrdinary : (n : Text) → IsOrdinary (n ++ json_end)
file_name-IsOrdinary n = (
  λ e. absurd (omega (arith, file_name_long n, ap length e)),
  λ e. absurd (omega (arith, file_name_long n, ap length e)),
  λ e. absurd (omega (arith, file_name_long n, ap length e)),
)

in_folder :
    (c : ℕ) (d t : Text) → IsSlashFree t → IsOrdinary t → path_join (c ∷ d) t ≡ folder (c ∷ d) ++ t
in_folder c d [] h o = absurd (o.0 refl)
in_folder c d (x ∷ t) h o = path_join_free c d x t h o

-- The file of a name without slashes: the name in the directory.
pub file_lem :
    (c : ℕ) (d n : Text) → IsSlashFree n → file (c ∷ d) n ≡ folder (c ∷ d) ++ (n ++ json_end)
unfolding file
file_lem c d n h =
    in_folder c d (n ++ json_end) (file_name-IsSlashFree n h) (file_name-IsOrdinary n)

-- In a directory with a non-empty path, names without slashes that have one file are one name.
pub file-injective :
    (c : ℕ) (d m n : Text) → IsSlashFree m → IsSlashFree n → file (c ∷ d) m ≡ file (c ∷ d) n → m ≡ n
file-injective c d m n h k e = append_cancel_right m n json_end (
    append_cancel_left (folder (c ∷ d)) (m ++ json_end) (n ++ json_end)
      (sym (file_lem c d m h) ∙ e ∙ file_lem c d n k))

-- A name with a slash need not stay in the directory: from a directory with an ordinary name of one
-- element, "../x" is the file "x.json" beside it.
pub file_climbs :
    (c : ℕ) (d n : Text)
    → IsSlashFree (c ∷ d)
    → IsOrdinary (c ∷ d)
    → IsSlashFree n
    → file (c ∷ d) (dot_dot ++ b'/' ∷ n) ≡ n ++ json_end
unfolding file
file_climbs c d n free ordinary h =
    beside (n ++ json_end) (file_name-IsSlashFree n h) (file_name-IsOrdinary n)
  where
    beside : (t : Text) → IsSlashFree t → IsOrdinary t → path_join (c ∷ d) (dot_dot ++ b'/' ∷ t) ≡ t
    beside [] f o = absurd (o.0 refl)
    beside (x ∷ t) f o = path_join_climbs c d x t free ordinary f o
