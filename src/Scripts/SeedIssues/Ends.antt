-- ===== src/Scripts/SeedIssues/Ends.antt =====
-- Computations of the script that return, with what they leave in the repository.
use projects_api.Common.{Text, ◌≡◌, refl, subst, Bool, false, List}
use projects_api.Domain.Exceptions.{Result, ok, raise}
use projects_api.Domain.Validation.{strip}
use projects_api.World.{pure, lift, continue, ◌>>=◌}
use projects_api.Scripts.SeedIssues.{Gh, Python, Session, Run, print, write_file, call, run}
use projects_api.Scripts.SeedIssues.Github.{Names, Kept, Github}

pub Kept-refl : (n : Names) → Kept n n
Kept-refl n = record { labels = λ x h. h; milestones = λ x h. h; issues = λ x h. h }

pub Kept-trans : (a b c : Names) → Kept a b → Kept b c → Kept a c
Kept-trans a b c h k = record {
  labels = λ x m. k.labels x (h.labels x m);
  milestones = λ x m. k.milestones x (h.milestones x m);
  issues = λ x m. k.issues x (h.issues x m);
}

module _ (G : Gh) (y : Python) (root : Text) (doc : Github G) (repo : Text) where
  abbrev pub R : Type 0 → Type 0
  R A = Run G y root A

  abbrev pub at : Session G.State → Names
  at w = doc.names repo w.github

  -- Where `m` returns from `w`, it has removed nothing and its result and the names are as `P` says.
  pub record Returns {A : Type 0} (m : R A) (w : Session G.State) (P : A → Names → Type 0)
      : Type 0 where
    pub ends : (a : A) → (m w).0 ≡ ok a → Kept (at w) (at (m w).1) × P a (at (m w).1)

  pub then_ends :
      {A B : Type 0} {m : R A} {f : A → R B} {w : Session G.State} {P : A → Names → Type 0}
      {Q : B → Names → Type 0}
      → Returns m w P
      → ((a : A) → (v : Session G.State) → Kept (at w) (at v) → P a (at v) → Returns (f a) v Q)
      → Returns (m >>= f) w Q
  unfolding ◌>>=◌
  then_ends {A = A} {B = B} {m = m} {f = f} {w = w} {P = P} {Q = Q} h k = record {
    ends = λ b e. of (m w).0 (m w).1 (λ a d. h.ends a d) b e;
  }
    where
      of :
          (x : Result A) (v : Session G.State)
          → ((a : A) → x ≡ ok a → Kept (at w) (at v) × P a (at v))
          → (b : B) → (continue x f v).0 ≡ ok b
          → Kept (at w) (at (continue x f v).1) × Q b (at (continue x f v).1)
      of (raise e) v g b d = cc (d)
      of (ok a) v g b d =
          let (kept, p) = g a refl in
          let (more, q) = (k a v kept p).ends b d in (Kept-trans _ _ _ kept more, q)

  pub weaken :
      {A : Type 0} {m : R A} {w : Session G.State} {P Q : A → Names → Type 0}
      → Returns m w P
      → ((a : A) → (n : Names) → Kept (at w) n → P a n → Q a n)
      → Returns m w Q
  weaken h f = record { ends = λ a e. let (kept, p) = h.ends a e in (kept, f a _ kept p) }

  pub lift_ends :
      {A : Type 0} (x : Result A) (w : Session G.State) → Returns (lift x) w (λ a n. x ≡ ok a)
  lift_ends x w = record { ends = λ a e. (Kept-refl _, e) }

  pub pure_ends :
      {A : Type 0} (a : A) (w : Session G.State) (P : Names → Type 0)
      → P (at w)
      → Returns (pure a) w (λ _ n. P n)
  pure_ends a w P p = record { ends = λ b e. (Kept-refl _, p) }

  pub print_ends :
      (line : Text) (w : Session G.State) (P : Names → Type 0)
      → P (at w)
      → Returns (print G y root line) w (λ _ n. P n)
  print_ends line w P p = record { ends = λ b e. (Kept-refl _, p) }

  pub write_ends :
      (path text : Text) (w : Session G.State)
      → Returns (write_file G y root path text) w (λ _ n. Unit)
  write_ends path text w = record { ends = λ b e. (Kept-refl _, tt) }

  pub call_ends :
      (cmd : List Text) (w : Session G.State) (P : Text → Names → Type 0)
      → ((raw : Text)
          → (G.call cmd w.github).0 ≡ ok raw
          → Kept (at w) (doc.names repo (G.call cmd w.github).1)
            × P raw (doc.names repo (G.call cmd w.github).1))
      → Returns (call G y root cmd) w P
  call_ends cmd w P h = record { ends = h }

  pub run_ends :
      (cmd : List Text) (mutating : Bool) (w : Session G.State) (P : Text → Names → Type 0)
      → ((raw : Text)
          → (G.call cmd w.github).0 ≡ ok raw
          → Kept (at w) (doc.names repo (G.call cmd w.github).1)
            × P (strip raw) (doc.names repo (G.call cmd w.github).1))
      → Returns (run G y root cmd false mutating) w P
  unfolding run
  run_ends cmd mutating w P h =
      then_ends (call_ends cmd w (λ raw n. P (strip raw) n) h) (λ raw v kept p. record {
        ends = λ a e. (Kept-refl _, subst (λ x. P x (at v)) (ok_cancel e) p);
      })
    where
      ok_cancel : {s t : Text} → ◌≡◌ {A = Result Text} (ok s) (ok t) → s ≡ t
      ok_cancel e = cc (e)
