-- ===== src/Router/Spec.antt =====
-- What the router of routertwo/router.go promises: it is a registry, which for each name holds a session
-- or the owner of the name, and nothing else. Tables, index, files, dates and addresses are forgotten.
pub mod Single
pub mod Gone
pub mod All
pub mod Refines
use remotemoe.Prelude.{
  ◌≡◌, ◌↔◌, ◌==◌, Bool, true, false, List, [], ◌∷◌, Option, none, some, if◌then◌else◌, In, map,
}
use remotemoe.Text.{Text, text_eq}
use remotemoe.Text.Lower.{to_lower}
use remotemoe.Route.{Peer, NamedRoute, Route, host_route, name_route, new_name}
use remotemoe.Disk.{Env}
use remotemoe.Router.{
  Router, Error, unable_to_store, occupied, not_existing, not_named, not_yours, fs_error, Result,
  ok, err, find,
}
use remotemoe.Router.Calls.{online, is_peer, add_name, remove_name}
use remotemoe.Router.Sweep.{Removed, remove_names}
use remotemoe.Router.Effects.{stores}
use remotemoe.Router.Answers.{store_failure}
use remotemoe.Router.History.{World, Call, onlines, offlines, removes_all, adds, removes, step}

-- A name leads to a session, which may be away, or to the name of another.
pub data Target : Type 0 where
  session : Option Peer → Target
  alias : Text → Target

abbrev pub Registry : Type 0
Registry = Text → Option Target

-- What a caller gets back. Of the names that RemoveNames answers only their texts are told, and of
-- its error that there is one; `panicked` stands for the panic.
pub data Outcome : Type 0 where
  silent panicked : Outcome
  onlined : Result Bool → Outcome
  finished : Result (Unit {0}) → Outcome
  took_away : List Text → Bool → Outcome

abbrev pub assign : Text → Option Target → Registry → Registry
assign k e f j = if text_eq k j then e else f j

abbrev pub is_busy : Option Target → Bool
is_busy none = false
is_busy (some (session none)) = false
is_busy (some (session (some q))) = true
is_busy (some (alias o)) = false

abbrev pub is_session : Peer → Option Target → Bool
is_session p none = false
is_session p (some (session q)) = is_peer p q
is_session p (some (alias o)) = false

-- AddName in a registry: the answer, by what stands under the name, and whether the name is taken.
abbrev pub add_answer : Env → Text → Text → Option Target → Result (Unit {0})
add_answer env k owner none = if stores env then ok tt else err (store_failure env)
add_answer env k owner (some (session q)) = err (occupied k)
add_answer env k owner (some (alias o)) = if text_eq o owner then ok tt else err (occupied k)

abbrev pub is_free : Option Target → Bool
is_free none = true
is_free (some e) = false

-- RemoveName in a registry.
abbrev pub remove_answer : Env → Text → Text → Option Target → Result (Unit {0})
remove_answer env k owner none = err (not_existing k)
remove_answer env k owner (some (session q)) = err (not_named k)
remove_answer env k owner (some (alias o)) =
    if text_eq o owner
    then (if env.can_unlink k then ok tt else err fs_error)
    else err (not_yours k)

abbrev pub is_alias_of : Text → Option Target → Bool
is_alias_of owner none = false
is_alias_of owner (some (session q)) = false
is_alias_of owner (some (alias o)) = text_eq o owner

-- RemoveNames in a registry: the names that it answers were the caller's, each with a file that can
-- be removed, and are gone; all others stay. Without an error the caller has no name left, and with
-- one there is a name of his left whose file cannot be removed.
pub record TakesAway (env : Env) (p : Peer) (f : Registry) (gone : List Text) (failed : Bool)
    (g : Registry) : Type 0 where
  pub were :
      (k : Text)
      → In k gone
      → (f k ≡ some (alias p.fqdn)) × (env.can_unlink k ≡ true) × (g k ≡ none)
  pub stay : (k : Text) → (In k gone → ⊥) → g k ≡ f k
  pub clean : failed ≡ false → (k : Text) → is_alias_of p.fqdn (g k) ≡ false
  pub stuck : failed ≡ true → (k : Text) × (g k ≡ some (alias p.fqdn)) × (env.can_unlink k ≡ false)

module _ (unicode_lower : Text → Text) where
  -- A call, in a registry: what it answers, and the registry after it.
  abbrev pub Does : Registry → Call → Outcome → Registry → Type 0
  Does f (onlines env p) a g =
      (a ≡ onlined (if stores env then ok (is_busy (f p.fqdn)) else err (store_failure env)))
      × ((k : Text)
          → g k ≡ (if stores env then assign p.fqdn (some (session (some p))) f k else f k))
  Does f (offlines env p) a g =
      (a ≡ silent)
      × ((k : Text)
          → g k
            ≡ (if is_session p (f p.fqdn) then assign p.fqdn (some (session none)) f k else f k))
  Does f (removes_all env p) a g =
      (gone : List Text) × (failed : Bool) × (a ≡ took_away gone failed)
      × TakesAway env p f gone failed g
  Does f (adds env s p) a g =
      let k = to_lower unicode_lower s in
      (a ≡ finished (add_answer env k p.fqdn (f k)))
      × ((j : Text)
          → g j ≡ (
              if is_free (f k)
              then (if stores env then assign k (some (alias p.fqdn)) f j else f j)
              else f j))
  Does f (removes env k p) a g =
      (a ≡ finished (remove_answer env k p.fqdn (f k)))
      × ((j : Text)
          → g j ≡ (
              if is_alias_of p.fqdn (f k)
              then (if env.can_unlink k then assign k none f j else f j)
              else f j))

  -- Calls one after the other, with their answers.
  pub data DoesAll : Registry → List Call → List Outcome → Registry → Type 0 where
    nothing_more : (f : Registry) → DoesAll f [] [] f
    and_then :
        {f g h : Registry} {c : Call} {a : Outcome} {cs : List Call} {answers : List Outcome}
        → Does f c a g
        → DoesAll g cs answers h
        → DoesAll f (c ∷ cs) (a ∷ answers) h

-- The registry that a router implements.
abbrev pub target : Option Route → Option Target
target none = none
target (some (host_route h)) = some (session h.routable)
target (some (name_route n)) = some (alias n.owner)

abbrev pub registry : Router → Registry
registry r k = target (find k r)

abbrev pub name_texts : List NamedRoute → List Text
name_texts [] = []
name_texts (n ∷ ns) = n.name ∷ name_texts ns

abbrev pub is_some_error : Option Error → Bool
is_some_error none = false
is_some_error (some e) = true

abbrev pub removal : Option Removed → Outcome
removal none = panicked
removal (some r) = took_away (name_texts r.list) (is_some_error r.error)

module _ (unicode_lower : Text → Text) where
  -- What a call of the router answers.
  abbrev pub answer : World → Call → Outcome
  answer w (onlines env p) = onlined (online env p w.router).result
  answer w (offlines env p) = silent
  answer w (removes_all env p) = removal (remove_names env p w.router).1
  answer w (adds env s p) =
      finished (add_name env (new_name unicode_lower w.next_ref s p) w.router).1
  answer w (removes env k p) = finished (remove_name env k p w.router).1

  abbrev pub answers : World → List Call → List Outcome
  answers w [] = []
  answers w (c ∷ cs) = answer w c ∷ answers (step unicode_lower w c) cs
