-- ===== src/Commands/Access/Laws.antt =====
-- ssh/command/access.go: which lines a service's part holds.
use remotemoe.Prelude.{
  ℕ, ◌≡◌, refl, sym, ap, ◌∙◌, Bool, true, false, List, [], ◌∷◌, ◌++◌, map, In, In-append,
  In-append_left, In-append_right, inl, inr, ◌⊎◌, ◌↔◌, arith, Bool-cases,
}
use remotemoe.Text.{Text}
use remotemoe.Session.{has_port}
use remotemoe.Commands.Access.{port_lines, or_help, section, heading, service_ports}

pub In-map : {A B : Type 0} (f : A → B) (a : A) (xs : List A) → In a xs → In (f a) (map f xs)
In-map f a [] m = absurd m
In-map f a (x ∷ xs) (inl e) = inl (ap f e)
In-map f a (x ∷ xs) (inr m) = inr (In-map f a xs m)

pub of_In-map :
    {A B : Type 0} (f : A → B) (b : B) (xs : List A)
    → In b (map f xs)
    → (a : A) × In a xs × (b ≡ f a)
of_In-map f b [] m = absurd m
of_In-map f b (x ∷ xs) (inl e) = (x, inl refl, e)
of_In-map f b (x ∷ xs) (inr m) = let (a, i, e) = of_In-map f b xs m in (a, inr i, e)

module _ (line : ℕ → Text → Text) (hosts : List Text) (forwards : List ℕ) where
  -- The text is the line of a forwarded port and a name.
  abbrev pub Lists : List ℕ → Text → Type 0
  Lists ps t =
      (p : ℕ) × (host : Text) × In p ps
      × (has_port p forwards ≡ true)
      × In host hosts
      × (t ≡ line p host)

  abbrev pub AnyForwarded : List ℕ → Type 0
  AnyForwarded ps = (p : ℕ) × In p ps × (has_port p forwards ≡ true)

  abbrev own_lines : ℕ → List Text
  own_lines q = map (λ host. line q host) hosts

  port_lines-forwarded :
      (q : ℕ) (ps : List ℕ) (help : Bool)
      → has_port q forwards ≡ true
      → port_lines line hosts forwards (q ∷ ps) help ≡ (
        own_lines q ++ (port_lines line hosts forwards ps false).0,
        (port_lines line hosts forwards ps false).1,
      )
  unfolding port_lines
  port_lines-forwarded q ps help e = ground (arith, e)

  port_lines-other :
      (q : ℕ) (ps : List ℕ) (help : Bool)
      → has_port q forwards ≡ false
      → port_lines line hosts forwards (q ∷ ps) help ≡ port_lines line hosts forwards ps help
  unfolding port_lines
  port_lines-other q ps help e = ground (arith, e)

  of_Lists :
      (ps : List ℕ) (help : Bool) (t : Text)
      → Lists ps t
      → In t (port_lines line hosts forwards ps help).0
  of_Lists [] help t (p, host, i, f, j, e) = absurd i
  of_Lists (q ∷ ps) help t (p, host, inl same, f, j, e) =
      rw (port_lines-forwarded q ps help (ap (λ x. has_port x forwards) (sym same) ∙ f))
        (In-append_left t (own_lines q) _ (rw (e, same) (In-map (λ h. line q h) host hosts j)))
  of_Lists (q ∷ ps) help t (p, host, inr i, f, j, e) = elim (Bool-cases (has_port q forwards)) [
    | inl on ↦
        rw (port_lines-forwarded q ps help on)
          (In-append_right t (own_lines q) _ (of_Lists ps false t (p, host, i, f, j, e)))
    | inr off ↦ rw (port_lines-other q ps help off) (of_Lists ps help t (p, host, i, f, j, e))
  ]

  later : (q : ℕ) (ps : List ℕ) (t : Text) → Lists ps t → Lists (q ∷ ps) t
  later q ps t (p, host, i, f, j, e) = (p, host, inr i, f, j, e)

  to_Lists :
      (ps : List ℕ) (help : Bool) (t : Text)
      → In t (port_lines line hosts forwards ps help).0
      → Lists ps t
  unfolding port_lines
  to_Lists [] help t m = absurd m
  to_Lists (q ∷ ps) help t m = elim (Bool-cases (has_port q forwards)) [
    | inl on ↦ elim (In-append t (own_lines q) _ (rw (port_lines-forwarded q ps help on) at m)) [
      | inl here ↦
          let (host, i, e) = of_In-map (λ h. line q h) t hosts here in (q, host, inl refl, on, i, e)
      | inr there ↦ later q ps t (to_Lists ps false t there)
    ]
    | inr off ↦ later q ps t (to_Lists ps help t (rw (port_lines-other q ps help off) at m))
  ]

  no_help : (ps : List ℕ) → (port_lines line hosts forwards ps false).1 ≡ false
  unfolding port_lines
  no_help [] = refl
  no_help (q ∷ ps) = ground (arith, no_help ps)

  help_iff :
      (ps : List ℕ) → ((port_lines line hosts forwards ps true).1 ≡ true) ↔ (AnyForwarded ps → ⊥)
  unfolding port_lines
  help_iff [] = ((λ e (p, i, f). i), λ n. refl)
  help_iff (q ∷ ps) = elim (Bool-cases (has_port q forwards)) [
    | inl on ↦
        ((λ e. absurd (ground (arith, e, on, no_help ps))), λ n. absurd (n (q, inl refl, on)))
    | inr off ↦ (
      (λ e (p, i, f). elim i [
        | inl same ↦ ground (arith, off, same, f)
        | inr j ↦
            (help_iff ps).0
              (ap (λ (x : List Text × Bool). x.1) (sym (port_lines-other q ps true off)) ∙ e)
              (p, j, f)
      ]),
      λ n.
          ap (λ (x : List Text × Bool). x.1) (port_lines-other q ps true off)
          ∙ (help_iff ps).1 (λ (p, i, f). n (p, inr i, f)),
    )
  ]

module _ (line : ℕ → Text → Text) (service title hint : Text) (hosts : List Text)
    (forwards : List ℕ) where
  -- What a service's part holds.
  abbrev pub Holds : Text → Type 0
  Holds t =
      In t (heading service title)
      ⊎ (Lists line hosts forwards (service_ports service) t
          ⊎ ((t ≡ hint) × (AnyForwarded line hosts forwards (service_ports service) → ⊥)))

  In-or_help :
      (t : Text) (ls : List Text) (help : Bool)
      → In t (or_help hint (ls, help)) ↔ (In t ls ⊎ ((t ≡ hint) × (help ≡ true)))
  In-or_help t ls false = ground arith
  In-or_help t ls true = (
    (λ m. elim (In-append t ls (hint ∷ []) m) [
      | inl i ↦ inl i
      | inr (inl e) ↦ inr (e, refl)
      | inr (inr none_left) ↦ absurd none_left
    ]),
    λ m. elim m [
      | inl i ↦ In-append_left t ls (hint ∷ []) i
      | inr (e, q) ↦ In-append_right t ls (hint ∷ []) (inl e)
    ],
  )

  abbrev result : List Text × Bool
  result = port_lines line hosts forwards (service_ports service) true

  to_Holds : (t : Text) → In t (section line service title hint hosts forwards) → Holds t
  unfolding section
  to_Holds t m = elim (In-append t (heading service title) (or_help hint result) m) [
    | inl i ↦ inl i
    | inr i ↦ elim ((In-or_help t result.0 result.1).0 i) [
      | inl j ↦ inr (inl (to_Lists line hosts forwards (service_ports service) true t j))
      | inr (e, q) ↦ inr (inr (e, (help_iff line hosts forwards (service_ports service)).0 q))
    ]
  ]

  of_Holds : (t : Text) → Holds t → In t (section line service title hint hosts forwards)
  unfolding section
  of_Holds t (inl i) = In-append_left t (heading service title) (or_help hint result) i
  of_Holds t (inr (inl l)) = In-append_right t (heading service title) (or_help hint result) (
      (In-or_help t result.0 result.1).1
        (inl (of_Lists line hosts forwards (service_ports service) true t l)))
  of_Holds t (inr (inr (e, n))) = In-append_right t (heading service title) (or_help hint result) (
      (In-or_help t result.0 result.1).1
        (inr (e, (help_iff line hosts forwards (service_ports service)).1 n)))

  -- A service's part of what `access` prints holds, besides its heading, exactly one line for each
  -- port of the service that the session forwards and each of its names, and the hint how to forward
  -- one if and only if the session forwards none of them.
  pub In-section_iff :
      (t : Text)
      → In t (section line service title hint hosts forwards) ↔ (
          In t (heading service title)
          ⊎ (Lists line hosts forwards (service_ports service) t
              ⊎ ((t ≡ hint) × (AnyForwarded line hosts forwards (service_ports service) → ⊥))))
  In-section_iff t = (to_Holds t, of_Holds t)
