-- ===== src/Examples/Exits.antt =====
-- Exit code 0 of the programs of src/examples, step by step: no call before it has failed.
use fosdk.Common.{
  ℕ, ◌≡◌, refl, sym, ◌∙◌, ap, Bool, true, false, String, Option, none, some, List, if◌then◌else◌,
  arith,
}
use fosdk.Gwc.Wait.{Wait}
use fosdk.Examples.{Ending, exits, blocked, Api, or_exit, waited, given, logged_on}

code : {S : Type 0} → Ending S → ℕ
code (exits n s) = n
code blocked = 1

module _ {S : Type 0} where
  -- The exit code 0.
  abbrev pub Succeeds : Ending S → Type 0
  Succeeds e = (r : Option S) × (e ≡ exits 0 r)

  pub carry : (e f : Ending S) → e ≡ f → Succeeds e → Succeeds f
  carry e f q (r, h) = (r, sym q ∙ h)

  pub or_exit-Succeeds :
      (r : S × Bool) (next : S → Ending S)
      → Succeeds (or_exit r next)
      → (r.1 ≡ true) × (or_exit r next ≡ next r.0)
  unfolding or_exit code
  or_exit-Succeeds (s, true) next h = (refl, refl)
  or_exit-Succeeds (s, false) next (r, e) = absurd (ground (arith, ap code e))

  pub waited-Succeeds :
      (o : Option S) (next : S → Ending S)
      → Succeeds (waited o next)
      → (s : S) × (o ≡ some s) × (waited o next ≡ next s)
  unfolding waited code
  waited-Succeeds none next (r, e) = absurd (ground (arith, ap code e))
  waited-Succeeds (some s) next h = (s, refl, refl)

  given-Succeeds :
      (o : Option S) (next : S → Ending S)
      → Succeeds (given o next)
      → (s : S) × (o ≡ some s) × (given o next ≡ next s)
  unfolding given code
  given-Succeeds none next (r, e) = absurd (ground (arith, ap code e))
  given-Succeeds (some s) next h = (s, refl, refl)

module _ {S M D : Type 0} (A : Api S M D) where
  -- The logger was configured, the factory gave a connector, init and start returned true on it, and the
  -- wait for the logon ended in the state `s`.
  abbrev pub Begun : String → List (String × String) → S → Type 0
  Begun t p s =
      (A.configure ≡ true)
      × ((c : S) × (A.get t p ≡ some c)
          × ((A.init p c).1 ≡ true)
          × ((A.start false (A.init p c).0).1 ≡ true)
          × (A.wait_for Wait.for_logon (A.start false (A.init p c).0).0 ≡ some s))

  logged_on-Succeeds :
      (t : String) (p : List (String × String)) (next : S → Ending S)
      → A.configure ≡ true
      → Succeeds (logged_on A t p next)
      → (s : S) × Begun t p s × (logged_on A t p next ≡ next s)
  unfolding logged_on
  logged_on-Succeeds t p next configured h =
      let waits = λ (u : S). waited (A.wait_for Wait.for_logon u) next in
      let starts = λ (s : S). or_exit (A.start false s) waits in
      let inits = λ (s : S). or_exit (A.init p s) starts in
      let (s, got, e) = given-Succeeds (A.get t p) inits h in
      let g = carry _ _ e h in
      let i = or_exit-Succeeds (A.init p s) starts g in
      let k = carry _ _ i.1 g in
      let j = or_exit-Succeeds (A.start false (A.init p s).0) waits k in
      let w =
        waited-Succeeds (A.wait_for Wait.for_logon (A.start false (A.init p s).0).0) next
          (carry _ _ j.1 k) in
      (w.0, (configured, (s, got, i.0, j.0, w.1)), e ∙ i.1 ∙ j.1 ∙ w.2)

  if-Begun :
      (b : Bool) (t : String) (p : List (String × String)) (next : S → Ending S)
      → A.configure ≡ b
      → Succeeds (if b then logged_on A t p next else exits 1 none)
      → (s : S) × Begun t p s × ((if b then logged_on A t p next else exits 1 none) ≡ next s)
  unfolding code
  if-Begun true t p next c h = logged_on-Succeeds t p next c h
  if-Begun false t p next c (r, e) = absurd (ground (arith, ap code e))

  pub main-Begun :
      (t : String) (p : List (String × String)) (next : S → Ending S)
      → Succeeds (if A.configure then logged_on A t p next else exits 1 none)
      → (s : S) × Begun t p s
        × ((if A.configure then logged_on A t p next else exits 1 none) ≡ next s)
  main-Begun t p next h = if-Begun A.configure t p next refl h
