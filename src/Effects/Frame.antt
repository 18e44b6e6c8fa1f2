-- ===== src/Effects/Frame.antt =====
-- What a call leaves of the world: a preorder on worlds, and the calls that go up in it.
use auto_sentinel.Prelude.{◌≡◌}
use auto_sentinel.Effects.{Result, ok, err, Exec, continue, ◌>>=◌, try_with}

pub record Frame (S : Type 0) : Type 1 where
  pub Le : S → S → Type 0
  pub le_refl : (s : S) → Le s s
  pub le_trans : (s t u : S) → Le s t → Le t u → Le s u

module _ {S : Type 0} (frame : Frame S) where
  abbrev pub Respects : {A : Type 0} → Exec S A → Type 0
  Respects m = (s : S) → frame.Le s (m s).1

  pub Respects-continue :
      {A B : Type 0} (s : S) (q : Result A × S) (f : A → Exec S B)
      → frame.Le s q.1
      → ((a : A) → Respects (f a))
      → frame.Le s (continue q f).1
  Respects-continue s (ok a, t) f h k = frame.le_trans s t (f a t).1 h (k a t)
  Respects-continue s (err e, t) f h k = h

  pub Respects-bind :
      {A B : Type 0} (m : Exec S A) (f : A → Exec S B)
      → Respects m
      → ((a : A) → Respects (f a))
      → Respects (m >>= f)
  Respects-bind m f h k s = Respects-continue s (m s) f (h s) k

  pub Respects-try_with :
      {A B : Type 0} (m : Exec S A) (handler : Result A → Exec S B)
      → Respects m
      → ((r : Result A) → Respects (handler r))
      → Respects (try_with m handler)
  Respects-try_with m handler h k s =
      let (r, t) = m s in frame.le_trans s t (handler r t).1 (h s) (k r t)

-- What follows a call that has returned.
pub continue-ok :
    {S A B : Type 0} (q : Result A × S) (a : A) (f : A → Exec S B)
    → q.0 ≡ ok a
    → continue q f ≡ f a q.1
continue-ok (ok b, s) a f h = cc
continue-ok (err e, s) a f h = absurd (cc)
