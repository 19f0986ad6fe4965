-- ===== src/Attempt/Keeps.antt =====
-- Properties of the trace that the actions of an attempt (worker/src/retry.rs) keep.
use streaming_video_app.Prelude.{Result, ok, err}
use streaming_video_app.Attempt.Effects.{Trace, M, pure, ◌>>=◌, ◌>>!◌, Stop}

-- The action keeps a property of the trace, however it ends.
pub record Keeps {A : Type 0} (P : Trace → Type 0) (m : M A) : Type 0 where
  pub at : (t : Trace) → P t → P (m t).1

module _ (P : Trace → Type 0) where
  bind_at :
      {A B : Type 0} (r : Result Stop A × Trace) (f : A → M B)
      → ((a : A) → Keeps P (f a))
      → P r.1
      → P (◌>>=◌ (λ t. r) f r.1).1
  bind_at (ok a, t) f hf h = (hf a).at t h
  bind_at (err e, t) f hf h = h

  pub Keeps-bind :
      {A B : Type 0} (m : M A) (f : A → M B)
      → Keeps P m
      → ((a : A) → Keeps P (f a))
      → Keeps P (m >>= f)
  Keeps-bind m f hm hf = record { at = λ t h. bind_at (m t) f hf (hm.at t h) }

  pub Keeps-pure : {A : Type 0} (a : A) → Keeps P (pure a)
  Keeps-pure a = record { at = λ t h. h }

  pub Keeps-try :
      {E A B : Type 0} (m : M (Result E A)) (f : A → M (Result E B))
      → Keeps P m
      → ((a : A) → Keeps P (f a))
      → Keeps P (m >>! f)
  Keeps-try {E} {A} {B} m f hm hf = record { at = λ t h. go (m t) (hm.at t h) }
    where
      go : (r : Result Stop (Result E A) × Trace) → P r.1 → P (◌>>!◌ (λ t. r) f r.1).1
      go (ok (ok a), t) h = (hf a).at t h
      go (ok (err e), t) h = h
      go (err e, t) h = h
