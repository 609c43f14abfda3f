-- ===== src/Manager/Creation/Silent.antt =====
-- worker/manager/manager.go: the loop of `CreateSnapshot` makes no call that takes or gives back a
-- kernel resource.
use coriolis_snapshot_agent.Common.{ℕ, ◌≡◌, refl, ◌∙◌, List, [], ◌∷◌}
use coriolis_snapshot_agent.Result.{on_error, Result, ok, err, Action, pure, lift, wrapping, ◌>>=◌}
use coriolis_snapshot_agent.Types.{CbtInfo, ImageInfo}
use coriolis_snapshot_agent.Bolthold.{Bolthold}
use coriolis_snapshot_agent.Db.Connection.{Database}
use coriolis_snapshot_agent.Manager.{Texts, logged}
use coriolis_snapshot_agent.Manager.State.{View, Agent, Kernel, in_db}
use coriolis_snapshot_agent.Manager.Creation.{Target, snap_volume, snap_volumes}

module _ ⦃bolt : Bolthold⦄ (texts : Texts) (kernel : Kernel) where
  -- The calls are the same afterwards.
  pub record SameCalls {A : Type 0} (m : Action Agent A) : Type 0 where
    pub step : (s : Agent) → ((m s).1).calls ≡ s.calls

  module _ {A : Type 0} where
    SameCalls-lift : (r : Result A) → SameCalls (lift r)
    SameCalls-lift r = record { step = λ s. refl }

    SameCalls-pure : (a : A) → SameCalls (pure a)
    SameCalls-pure a = record { step = λ s. refl }

    SameCalls-read : (f : Agent → Result A) → SameCalls {A = A} (λ s. (f s, s))
    SameCalls-read f = record { step = λ s. refl }

    SameCalls-wrapping : (m : Action Agent A) → SameCalls m → SameCalls (wrapping m)
    SameCalls-wrapping m h = record { step = h.step }

    SameCalls-logged : (m : Action Agent A) → SameCalls m → SameCalls (logged m)
    SameCalls-logged m h = record { step = h.step }

    SameCalls-in_db : (m : Action Database A) → SameCalls (in_db m)
    SameCalls-in_db m = record { step = λ s. refl }

  calls-then :
      {A B : Type 0} (t : Agent) (f : A → Action Agent B) (r : Result A)
      → ((a : A) → ((f a t).1).calls ≡ t.calls)
      → (((lift r >>= f) t).1).calls ≡ t.calls
  calls-then t f (ok a) k = k a
  calls-then t f (err e) k = refl

  SameCalls-bind :
      {A B : Type 0} (m : Action Agent A) (f : A → Action Agent B)
      → SameCalls m
      → ((a : A) → SameCalls (f a))
      → SameCalls (m >>= f)
  SameCalls-bind m f h k = record {
    step = λ s. calls-then ((m s).1) f ((m s).0) (λ a. (k a).step ((m s).1)) ∙ h.step s;
  }

  calls-failed :
      {A : Type 0} (clean : Action Agent (Unit {0})) (r : Result A) (t : Agent)
      → SameCalls clean
      → ((on_error clean (lift r) t).1).calls ≡ t.calls
  calls-failed clean (ok a) t h = refl
  calls-failed clean (err e) t h = h.step t

  SameCalls-on_error :
      {A : Type 0} (clean : Action Agent (Unit {0})) (m : Action Agent A)
      → SameCalls clean
      → SameCalls m
      → SameCalls (on_error clean m)
  SameCalls-on_error clean m h k = record {
    step = λ s. calls-failed clean ((m s).0) ((m s).1) h ∙ k.step s;
  }

  ruleset silent = (
    SameCalls-lift, SameCalls-pure, SameCalls-read, SameCalls-wrapping, SameCalls-logged,
    SameCalls-in_db, SameCalls-bind, SameCalls-on_error,
  )

  module _ (view : View) (targets : List Target) where
    SameCalls-snap_volume :
        (number : ℕ) (pre post : List CbtInfo) (before after : List ImageInfo) (t : Target)
        → SameCalls (snap_volume texts kernel view targets number pre post before after t)
    unfolding snap_volume
    SameCalls-snap_volume number pre post before after t = search (silent) depth 24

    pub SameCalls-snap_volumes :
        (number : ℕ) (pre post : List CbtInfo) (before after : List ImageInfo) (ts : List Target)
        → SameCalls (snap_volumes texts kernel view targets number pre post before after ts)
    unfolding snap_volumes
    SameCalls-snap_volumes number pre post before after [] = SameCalls-pure []
    SameCalls-snap_volumes number pre post before after (t ∷ ts) =
        SameCalls-bind _ _ (SameCalls-snap_volume number pre post before after t) (λ vol.
          SameCalls-bind _ _ (SameCalls-snap_volumes number pre post before after ts)
            (λ vols. SameCalls-pure (vol ∷ vols)))
