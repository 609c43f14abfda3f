-- ===== src/Manager/Kept.antt =====
-- worker/manager/: properties of the state that a method keeps, one rule for each way in which methods
-- are put together.
pub mod Queries
pub mod Reads
pub mod Watching
use coriolis_snapshot_agent.Common.{
  ℕ, ◌≡◌, refl, Bool, true, false, List, [], ◌∷◌, String, if◌then◌else◌,
}
use coriolis_snapshot_agent.Result.{
  Result, ok, err, Action, pure, raise, lift, attempt, wrapping, on_error, ◌>>=◌,
}
use coriolis_snapshot_agent.Bolthold.{Bolthold}
use coriolis_snapshot_agent.Db.Connection.{Database}
use coriolis_snapshot_agent.Manager.{logged, each_logged}
use coriolis_snapshot_agent.Manager.State.{
  Agent, Kernel, DiskOp, in_db, kernel_add, kernel_delete, kernel_cleanup, on_disk, record_watcher,
  get_character_device_watcher, in_watcher,
}
use coriolis_snapshot_agent.Types.{DevId}
use coriolis_snapshot_agent.Manager.Host.{Host, asked_now, done_now}
use coriolis_snapshot_agent.Watcher.{Watcher, Outside}

-- The state has the property afterwards too, whether or not the method fails.
pub record Keeps {S A : Type 0} (P : S → Type 0) (m : Action S A) : Type 0 where
  pub step : (s : S) → P s → P ((m s).1)

module _ {S : Type 0} (P : S → Type 0) where
  module _ {A : Type 0} where
    pub Keeps-read : (f : S → Result A) → Keeps {A = A} P (λ s. (f s, s))
    Keeps-read f = record { step = λ s h. h }

    pub Keeps-lift : (r : Result A) → Keeps P (lift r)
    Keeps-lift r = record { step = λ s h. h }

    pub Keeps-pure : (a : A) → Keeps P (pure a)
    Keeps-pure a = record { step = λ s h. h }

    pub Keeps-wrapping : (m : Action S A) → Keeps P m → Keeps P (wrapping m)
    Keeps-wrapping m h = record { step = h.step }

    pub Keeps-attempt : (m : Action S A) → Keeps P m → Keeps P (attempt m)
    Keeps-attempt m h = record { step = h.step }

    pub Keeps-logged : (m : Action S A) → Keeps P m → Keeps P (logged m)
    Keeps-logged m h = record { step = h.step }

    pub Keeps-if :
        (b : Bool) (m k : Action S A) → Keeps P m → Keeps P k → Keeps P (if b then m else k)
    Keeps-if true m k h i = h
    Keeps-if false m k h i = i

    failed :
        (clean : Action S (Unit {0})) (r : Result A) (s : S)
        → Keeps P clean
        → P s
        → P ((on_error clean (lift r) s).1)
    failed clean (ok a) s h p = p
    failed clean (err e) s h p = h.step s p

    pub Keeps-on_error :
        (clean : Action S (Unit {0})) (m : Action S A)
        → Keeps P clean
        → Keeps P m
        → Keeps P (on_error clean m)
    Keeps-on_error clean m h k = record {
      step = λ s p. failed clean ((m s).0) ((m s).1) h (k.step s p);
    }

  module _ {A B : Type 0} where
    next :
        (f : A → Action S B) (r : Result A) (s : S)
        → ((a : A) → Keeps P (f a))
        → P s
        → P (((lift r >>= f) s).1)
    next f (ok a) s k p = (k a).step s p
    next f (err e) s k p = p

    pub Keeps-bind :
        (m : Action S A) (f : A → Action S B)
        → Keeps P m
        → ((a : A) → Keeps P (f a))
        → Keeps P (m >>= f)
    Keeps-bind m f h k = record { step = λ s p. next f ((m s).0) ((m s).1) k (h.step s p) }

    pub Keeps-each :
        (f : A → Action S B) (items : List A)
        → ((a : A) → Keeps P (f a))
        → Keeps P (each_logged f items)
    Keeps-each f [] h = record { step = λ s p. p }
    Keeps-each f (a ∷ items) h = record {
      step = λ s p. (Keeps-each f items h).step ((f a s).1) ((h a).step s p);
    }

module _ ⦃bolt : Bolthold⦄ (P : Database → Type 0) where
  -- The property of a state, for one of its database.
  unfoldable pub InDb : Agent → Type 0
  InDb s = P s.db

  pub Keeps-in_db : {A : Type 0} (m : Action Database A) → Keeps P m → Keeps InDb (in_db m)
  unfolding InDb
  Keeps-in_db m h = record { step = λ s p. h.step s.db p }

  -- What leaves the database alone.
  pub Keeps-aside :
      {A : Type 0} (m : Action Agent A) → ((s : Agent) → ((m s).1).db ≡ s.db) → Keeps InDb m
  unfolding InDb
  Keeps-aside m h = record { step = λ s p. rw (h s) p }

module _ ⦃bolt : Bolthold⦄ (P : Database → Type 0) where
  pub Keeps-kernel_add : (kernel : Kernel) (dev : DevId) → Keeps (InDb P) (kernel_add kernel dev)
  Keeps-kernel_add kernel dev = Keeps-aside P _ (λ s. refl)

  pub Keeps-kernel_delete : (kernel : Kernel) (id : ℕ) → Keeps (InDb P) (kernel_delete kernel id)
  Keeps-kernel_delete kernel id = Keeps-aside P _ (λ s. refl)

  pub Keeps-kernel_cleanup :
      (kernel : Kernel) (id : List ℕ) → Keeps (InDb P) (kernel_cleanup kernel id)
  Keeps-kernel_cleanup kernel id = Keeps-aside P _ (λ s. refl)

  pub Keeps-on_disk :
      {A : Type 0} (op : DiskOp) (answer : Result A) → Keeps (InDb P) (on_disk op answer)
  Keeps-on_disk op answer = Keeps-aside P _ (λ s. refl)

  pub Keeps-asked_now :
      {A : Type 0} (host : Host) (question : Outside → Result A)
      → Keeps (InDb P) (asked_now host question)
  Keeps-asked_now host question = Keeps-aside P _ (λ s. refl)

  pub Keeps-done_now :
      {A : Type 0} (host : Host) (op : DiskOp) (question : Outside → Result A)
      → Keeps (InDb P) (done_now host op question)
  Keeps-done_now host op question = Keeps-aside P _ (λ s. refl)

  pub Keeps-record_watcher : (id : String) (w : Watcher) → Keeps (InDb P) (record_watcher id w)
  unfolding record_watcher
  Keeps-record_watcher id w = Keeps-aside P _ (λ s. refl)

  pub Keeps-get_watcher : (id : String) → Keeps (InDb P) (get_character_device_watcher id)
  unfolding get_character_device_watcher
  Keeps-get_watcher id = Keeps-aside P _ (λ s. refl)

  pub Keeps-in_watcher :
      {A : Type 0} (id : String) (w : Watcher) (m : Action Watcher A)
      → Keeps (InDb P) (in_watcher id w m)
  Keeps-in_watcher id w m = Keeps-aside P _ (λ s. refl)

pub ruleset kept = (
  Keeps-pure, Keeps-lift, Keeps-read, Keeps-wrapping, Keeps-attempt, Keeps-logged, Keeps-if,
  Keeps-on_error, Keeps-bind, Keeps-each, Keeps-in_db, Keeps-kernel_add, Keeps-kernel_delete,
  Keeps-kernel_cleanup, Keeps-on_disk, Keeps-asked_now, Keeps-done_now, Keeps-record_watcher,
  Keeps-get_watcher, Keeps-in_watcher,
)
