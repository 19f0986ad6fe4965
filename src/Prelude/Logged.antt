-- ===== src/Prelude/Logged.antt =====
-- Code that asks the world for things in order, stops at the first error, and leaves the list of
-- its calls, the newest first.
use mathlib.Core.List.{List}
use streaming_video_app.Prelude.Outcome.{Result, ok, err}

abbrev pub Logged : Type 0 → Type 0 → Type 0 → Type 0
Logged E C A = List C → Result E A × List C

module _ {E C : Type 0} where
  abbrev pub next : {A B : Type 0} → (A → Logged E C B) → Result E A × List C → Result E B × List C
  next f (ok a, log) = f a log
  next f (err e, log) = (err e, log)

  abbrev pub and_then : {A B : Type 0} → Logged E C A → (A → Logged E C B) → Logged E C B
  and_then m f log = next f (m log)

  -- What holds of a value and the calls, or of the calls alone after an error.
  abbrev pub Outcome :
      {A : Type 0} → (A → List C → Type 0) → (List C → Type 0) → Result E A × List C → Type 0
  Outcome Q R (ok a, log) = Q a log
  Outcome Q R (err e, log) = R log

  pub record Triple {A : Type 0} (P : List C → Type 0) (Q : A → List C → Type 0)
      (R : List C → Type 0) (m : Logged E C A) : Type 0 where
    pub at : (log : List C) → P log → Outcome Q R (m log)

  after :
      {A B : Type 0} (P : A → List C → Type 0) (Q : B → List C → Type 0) (R : List C → Type 0)
      (f : A → Logged E C B)
      → ((a : A) → Triple (P a) Q R (f a))
      → (o : Result E A × List C) → Outcome P R o
      → Outcome Q R (next f o)
  after P Q R f k (ok a, log) p = (k a).at log p
  after P Q R f k (err e, log) p = p

  pub Triple-bind :
      {A B : Type 0} (I : List C → Type 0) (P : A → List C → Type 0) (Q : B → List C → Type 0)
      (R : List C → Type 0) (m : Logged E C A) (f : A → Logged E C B)
      → Triple I P R m
      → ((a : A) → Triple (P a) Q R (f a))
      → Triple I Q R (and_then m f)
  Triple-bind I P Q R m f h k = record { at = λ log p. after P Q R f k (m log) (h.at log p) }
