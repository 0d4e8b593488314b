-- ===== src/Scripts/SeedIssues/Idle.antt =====
-- Computations of the script that return and leave the repository as it is.
use projects_api.Common.{ℕ, Text, ◌≡◌, refl, ap, false, List}
use projects_api.Domain.Exceptions.{Result, ok}
use projects_api.Domain.Validation.{strip}
use projects_api.World.{pure, lift, ◌>>=◌}
use projects_api.Scripts.SeedIssues.{Gh, Python, Session, Run, print, call, run}

module _ (G : Gh) (y : Python) (root : Text) where
  abbrev pub R : Type 0 → Type 0
  R A = Run G y root A

  -- From the state `s` the computation returns a value with `P` and stays in `s`.
  pub record Idle {A : Type 0} (m : R A) (s : G.State) (P : A → Type 0) : Type 0 where
    pub quiet :
        (w : Session G.State)
        → w.github ≡ s
        → (a : A) × ((m w).0 ≡ ok a) × ((m w).1.github ≡ s) × P a

  pub then_quiet :
      {A B : Type 0} {m : R A} {f : A → R B} {s : G.State} {P : A → Type 0} {Q : B → Type 0}
      → Idle m s P
      → ((a : A) → P a → Idle (f a) s Q)
      → Idle (m >>= f) s Q
  unfolding ◌>>=◌
  then_quiet {m = m} {f = f} {s = s} {P = P} {Q = Q} h k = record {
    quiet = λ w here.
        let (a, e, same, p) = h.quiet w here in
        let (b, returned, stays, q) = (k a p).quiet (m w).1 same in
        (b, rw e returned, rw e stays, q);
  }

  pub pure_quiet : {A : Type 0} (a : A) (s : G.State) → Idle (pure a) s (λ b. Unit)
  pure_quiet a s = record { quiet = λ w here. (a, refl, here, tt) }

  pub zero_quiet : (s : G.State) → Idle {A = ℕ} (pure 0) s (λ n. n ≡ 0)
  zero_quiet s = record { quiet = λ w here. (0, refl, here, refl) }

  pub lift_quiet :
      {A : Type 0} (x : Result A) (a : A) (s : G.State) → x ≡ ok a → Idle (lift x) s (λ b. b ≡ a)
  lift_quiet x a s e = record { quiet = λ w here. (a, e, here, refl) }

  pub print_quiet : (line : Text) (s : G.State) → Idle (print G y root line) s (λ b. Unit)
  print_quiet line s = record { quiet = λ w here. (tt, refl, here, tt) }

  call_quiet :
      (cmd : List Text) (raw : Text) (s : G.State)
      → (G.call cmd s).0 ≡ ok raw
      → (G.call cmd s).1 ≡ s
      → Idle (call G y root cmd) s (λ out. out ≡ raw)
  call_quiet cmd raw s e keeps = record { quiet = λ w here. (raw, rw here e, rw here keeps, refl) }

  pub run_quiet :
      (cmd : List Text) (raw : Text) (s : G.State)
      → (G.call cmd s).0 ≡ ok raw
      → (G.call cmd s).1 ≡ s
      → Idle (run G y root cmd false false) s (λ out. out ≡ strip raw)
  unfolding run
  run_quiet cmd raw s e keeps =
      then_quiet (call_quiet cmd raw s e keeps)
        (λ out same. record { quiet = λ w here. (strip out, refl, here, ap strip same) })
