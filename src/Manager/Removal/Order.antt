-- ===== src/Manager/Removal/Order.antt =====
-- worker/manager/manager.go: in which order `DeleteSnapshot` gives back what the kernel module holds.
use mathlib.Core.List.{append_assoc, append-nil}
use coriolis_snapshot_agent.Common.{
  ℕ, ◌≡◌, refl, sym, ◌∙◌, ◌⊎◌, inl, inr, Bool, true, false, List, [], ◌∷◌, ◌++◌, String, arith, All,
  if◌then◌else◌, Bool-cases,
}
use coriolis_snapshot_agent.Errors.{Error, is, any_of, not_found}
use coriolis_snapshot_agent.Result.{
  Result, ok, err, Action, wrapped, pure, raise, lift, attempt, wrapping, ◌>>=◌, ◌>>◌, Result-cases,
}
use coriolis_snapshot_agent.Bolthold.{Bolthold}
use coriolis_snapshot_agent.Db.Models.{Snapshot, VolumeSnapshot}
use coriolis_snapshot_agent.Db.Connection.{Database}
use coriolis_snapshot_agent.Db.Snapshots.{get_snapshot, delete_snapshot}
use coriolis_snapshot_agent.Manager.{Texts}
use coriolis_snapshot_agent.Manager.Removal.{
  remove_store, remove_stores, remove_snapshot, remove_found, forget, unless_gone,
}
use coriolis_snapshot_agent.Manager.State.{
  Agent, Call, snapshot_delete, snap_store_cleanup, Kernel, in_db, kernel_cleanup,
}

-- A call that only cleans up a snap store.
pub IsCleanup : Call → Type 0
IsCleanup c = (id : List ℕ) × (c ≡ snap_store_cleanup id)

module _ ⦃bolt : Bolthold⦄ where
  open bolt use {rows, faulty, find_one_lem}

  -- The calls that were made stay, and only clean-ups are made.
  pub record Cleans (s t : Agent) : Type 0 where
    pub later : List Call
    pub all_calls : t.calls ≡ s.calls ++ later
    pub cleanups : All IsCleanup later

  Cleans-refl : (s : Agent) → Cleans s s
  Cleans-refl s = record { later = []; all_calls = sym (append-nil s.calls); cleanups = tt }

  All-append : (xs ys : List Call) → All IsCleanup xs → All IsCleanup ys → All IsCleanup (xs ++ ys)
  All-append [] ys h k = k
  All-append (x ∷ xs) ys (hx, h) k = (hx, All-append xs ys h k)

  Cleans-trans : (s t u : Agent) → Cleans s t → Cleans t u → Cleans s u
  Cleans-trans s t u h k = record {
    later = h.later ++ k.later;
    all_calls = ground (arith, h.all_calls, k.all_calls, append_assoc s.calls h.later k.later);
    cleanups = All-append h.later k.later h.cleanups k.cleanups;
  }

  record CleansIn {A : Type 0} (m : Action Agent A) : Type 0 where
    pub step : (s : Agent) → Cleans s ((m s).1)

  module _ {A : Type 0} where
    CleansIn-lift : (r : Result A) → CleansIn (lift r)
    CleansIn-lift r = record { step = λ s. Cleans-refl s }

    CleansIn-pure : (a : A) → CleansIn (pure a)
    CleansIn-pure a = record { step = λ s. Cleans-refl s }

    CleansIn-raise : (e : Error) → CleansIn {A = A} (raise e)
    CleansIn-raise e = record { step = λ s. Cleans-refl s }

    CleansIn-wrapping : (m : Action Agent A) → CleansIn m → CleansIn (wrapping m)
    CleansIn-wrapping m h = record { step = h.step }

    CleansIn-attempt : (m : Action Agent A) → CleansIn m → CleansIn (attempt m)
    CleansIn-attempt m h = record { step = h.step }

    CleansIn-if :
        (b : Bool) (m n : Action Agent A) → CleansIn m → CleansIn n → CleansIn (if b then m else n)
    CleansIn-if true m n h k = h
    CleansIn-if false m n h k = k

    CleansIn-in_db : (m : Action Database A) → CleansIn (in_db m)
    CleansIn-in_db m = record {
      step = λ s. record { later = []; all_calls = sym (append-nil s.calls); cleanups = tt };
    }

  Cleans-then :
      {A B : Type 0} (s t : Agent) (f : A → Action Agent B) (r : Result A)
      → Cleans s t
      → ((a : A) → Cleans t ((f a t).1))
      → Cleans s ((lift r >>= f) t).1
  Cleans-then s t f (ok a) h k = Cleans-trans s t _ h (k a)
  Cleans-then s t f (err e) h k = h

  CleansIn-bind :
      {A B : Type 0} (m : Action Agent A) (f : A → Action Agent B)
      → CleansIn m
      → ((a : A) → CleansIn (f a))
      → CleansIn (m >>= f)
  CleansIn-bind m f h k = record {
    step = λ s. Cleans-then s ((m s).1) f ((m s).0) (h.step s) (λ a. (k a).step ((m s).1));
  }

  ruleset cleaning = (
    CleansIn-lift, CleansIn-pure, CleansIn-raise, CleansIn-wrapping, CleansIn-attempt,
    CleansIn-in_db, CleansIn-bind,
  )

  module _ (texts : Texts) (kernel : Kernel) where
    CleansIn-kernel_cleanup : (id : List ℕ) → CleansIn (kernel_cleanup kernel id)
    unfolding IsCleanup
    CleansIn-kernel_cleanup id = record {
      step = λ s. record {
        later = snap_store_cleanup id ∷ [];
        all_calls = refl;
        cleanups = ((id, refl), tt);
      };
    }

    CleansIn-remove_store : (vol : VolumeSnapshot) → CleansIn (remove_store texts kernel vol)
    unfolding remove_store
    CleansIn-remove_store vol = search (cleaning, CleansIn-kernel_cleanup) depth 14

    CleansIn-remove_stores :
        (vols : List VolumeSnapshot) → CleansIn (remove_stores texts kernel vols)
    unfolding remove_stores
    CleansIn-remove_stores [] = CleansIn-pure tt
    CleansIn-remove_stores (vol ∷ vols) =
        CleansIn-bind _ _ (CleansIn-remove_store vol) (λ a. CleansIn-remove_stores vols)

    CleansIn-unless_gone : (r : Result (Unit {0})) → CleansIn (unless_gone texts kernel r)
    CleansIn-unless_gone (ok a) = CleansIn-pure {A = Unit {0}} tt
    CleansIn-unless_gone (err e) =
        CleansIn-if _ _ _ (CleansIn-pure {A = Unit {0}} tt) (CleansIn-raise _)

    CleansIn-forget :
        (id : String) (snapshot : Snapshot) → CleansIn (forget texts kernel id snapshot)
    unfolding forget
    CleansIn-forget id snapshot =
        CleansIn-bind _ _ (CleansIn-remove_stores snapshot.volume_snapshots) (λ a.
          CleansIn-bind _ _ (CleansIn-attempt _ (CleansIn-in_db (delete_snapshot id)))
            CleansIn-unless_gone)

    -- The kernel module was asked to delete snapshot `n`, and only then to clean up snap stores. If it
    -- refused, nothing was cleaned up and the database is as before.
    pub record Removed (id : String) (s t : Agent) : Type 0 where
      pub number : ℕ
      pub parsed : texts.parse_uint id ≡ ok number
      pub later : List Call
      pub all_calls : t.calls ≡ s.calls ++ snapshot_delete number ∷ later
      pub cleanups : All IsCleanup later
      pub granted :
          (kernel.on_delete s.calls number ≡ ok tt)
          ⊎ ((e : Error) × (kernel.on_delete s.calls number ≡ err e) × (later ≡ []) × (t.db ≡ s.db))

    abbrev asked : Agent → ℕ → Agent
    asked s n = record s { calls = s.calls ++ snapshot_delete n ∷ [] }

    after_delete :
        (id : String) (snapshot : Snapshot) (s : Agent) (n : ℕ) (r : Result (Unit {0}))
        → texts.parse_uint id ≡ ok n
        → kernel.on_delete s.calls n ≡ r
        → Removed id s (((lift (wrapped r) >> forget texts kernel id snapshot) (asked s n)).1)
    after_delete id snapshot s n (ok a) p q =
        let rest = (CleansIn-forget id snapshot).step (asked s n) in
        record {
          number = n;
          parsed = p;
          later = rest.later;
          all_calls = rest.all_calls ∙ append_assoc s.calls (snapshot_delete n ∷ []) rest.later;
          cleanups = rest.cleanups;
          granted = inl q;
        }
    after_delete id snapshot s n (err e) p q = record {
      number = n;
      parsed = p;
      later = [];
      all_calls = refl;
      cleanups = tt;
      granted = inr (e, q, refl, refl);
    }

    found_state :
        (id : String) (snapshot : Snapshot) (s : Agent) (n : ℕ)
        → texts.parse_uint id ≡ ok n
        → remove_found texts kernel id (ok snapshot) s
          ≡ (lift (wrapped (kernel.on_delete s.calls n)) >> forget texts kernel id snapshot)
              (asked s n)
    unfolding remove_found
    found_state id snapshot s n p = rw p refl

    found_order :
        (id : String) (s : Agent) (r : Result Snapshot)
        → ((remove_found texts kernel id r s).1 ≡ s)
          ⊎ Removed id s ((remove_found texts kernel id r s).1)
    unfolding remove_found
    found_order id s (err e) = elim (Bool-cases (is e (any_of not_found))) [
      | inl h ↦ inl (ground (arith, h))
      | inr h ↦ inl (ground (arith, h))
    ]
    found_order id s (ok snapshot) = elim (Result-cases (texts.parse_uint id)) [
      | inl (n, p) ↦ inr (
          rw (found_state id snapshot s n p)
            (after_delete id snapshot s n (kernel.on_delete s.calls n) p refl))
      | inr (e, p) ↦ inl (ground (arith, p))
    ]

    -- Whatever the database holds and the kernel module answers, deleting a snapshot either makes no
    -- call at all and leaves the database as it is, or asks the kernel module first to delete the
    -- snapshot whose number is parsed from the id, and goes on to clean up snap stores and to change
    -- the database only if that is granted.
    pub remove_snapshot_order :
        (id : String) (s : Agent)
        → ((remove_snapshot texts kernel id s).1 ≡ s)
          ⊎ Removed id s ((remove_snapshot texts kernel id s).1)
    unfolding remove_snapshot get_snapshot
    remove_snapshot_order id s = found_order id s ((get_snapshot id s.db).0)
