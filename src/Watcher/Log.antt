-- ===== src/Watcher/Log.antt =====
-- What every step of a watcher keeps, with a rule for each way in which the code composes steps.
use mathlib.Core.List.{append_assoc, append-nil}
use coriolis_snapshot_agent.Common.{
  ℕ, ◌≡◌, refl, sym, ◌∙◌, Bool, true, false, List, [], ◌∷◌, ◌++◌, All, arith, if◌then◌else◌,
}
use coriolis_snapshot_agent.Errors.{Error}
use coriolis_snapshot_agent.Result.{
  Result, ok, err, Action, pure, raise, gets, lift, modify, wrapping, attempt, ◌>>=◌,
}
use coriolis_snapshot_agent.Watcher.{Watcher, send}
use coriolis_snapshot_agent.Watcher.Messages.{Message, about}

-- The settings stay, what was sent and written stays sent and written, every new message is about
-- the snap store of the watcher, and a closed device stays closed.
pub record Kept (w v : Watcher) : Type 0 where
  pub same_id : v.id ≡ w.id
  pub same_limit : v.snap_store_file_size ≡ w.snap_store_file_size
  pub same_dev : v.dev_id ≡ w.dev_id
  pub same_snap_dev : v.snap_device_id ≡ w.snap_device_id
  pub same_basedir : v.basedir ≡ w.basedir
  pub sends : (ms : List Message) × (v.sent ≡ w.sent ++ ms) × All (λ m. about m ≡ w.id) ms
  pub writes : (bs : List (List ℕ)) × (v.written ≡ w.written ++ bs)
  pub stays_closed : w.is_open ≡ false → v.is_open ≡ false

All-append : {A : Type 0} (P : A → Type 0) (xs ys : List A) → All P xs → All P ys → All P (xs ++ ys)
All-append P [] ys h k = k
All-append P (x ∷ xs) ys (hx, h) k = (hx, All-append P xs ys h k)

pub Kept-refl : (w : Watcher) → Kept w w
Kept-refl w = record {
  same_id = refl;
  same_limit = refl;
  same_dev = refl;
  same_snap_dev = refl;
  same_basedir = refl;
  sends = ([], sym (append-nil w.sent), tt);
  writes = ([], sym (append-nil w.written));
  stays_closed = λ h. h;
}

All-about :
    (i j : List ℕ) (ms : List Message)
    → i ≡ j
    → All (λ m. about m ≡ i) ms
    → All (λ m. about m ≡ j) ms
All-about i j [] e h = tt
All-about i j (m ∷ ms) e (h, hs) = (h ∙ e, All-about i j ms e hs)

pub Kept-trans : (w v u : Watcher) → Kept w v → Kept v u → Kept w u
Kept-trans w v u h k =
    let (ms, e, a) = h.sends in
    let (ns, f, b) = k.sends in
    let (bs, g) = h.writes in
    let (cs, l) = k.writes in
    record {
      same_id = k.same_id ∙ h.same_id;
      same_limit = k.same_limit ∙ h.same_limit;
      same_dev = k.same_dev ∙ h.same_dev;
      same_snap_dev = k.same_snap_dev ∙ h.same_snap_dev;
      same_basedir = k.same_basedir ∙ h.same_basedir;
      sends = (
        ms ++ ns,
        ground (arith, e, f, append_assoc w.sent ms ns),
        All-append _ ms ns a (All-about _ _ ns h.same_id b),
      );
      writes = (bs ++ cs, ground (arith, g, l, append_assoc w.written bs cs));
      stays_closed = λ c. k.stays_closed (h.stays_closed c);
    }

-- `m` keeps what a watcher of the snap store `id` must keep.
pub record Keeps {A : Type 0} (id : List ℕ) (m : Action Watcher A) : Type 0 where
  pub step : (w : Watcher) → w.id ≡ id → Kept w ((m w).1)

module _ {A : Type 0} (id : List ℕ) where
  pub Keeps-pure : (a : A) → Keeps id (pure a)
  Keeps-pure a = record { step = λ w h. Kept-refl w }

  pub Keeps-raise : (e : Error) → Keeps {A = A} id (raise e)
  Keeps-raise e = record { step = λ w h. Kept-refl w }

  pub Keeps-lift : (r : Result A) → Keeps id (lift r)
  Keeps-lift r = record { step = λ w h. Kept-refl w }

  pub Keeps-gets : (f : Watcher → A) → Keeps id (gets f)
  Keeps-gets f = record { step = λ w h. Kept-refl w }

  -- A result that is computed from the watcher and changes nothing.
  pub Keeps-read : (f : Watcher → Result A) → Keeps {A = A} id (λ w. (f w, w))
  Keeps-read f = record { step = λ w h. Kept-refl w }

  pub Keeps-wrapping : (m : Action Watcher A) → Keeps id m → Keeps id (wrapping m)
  Keeps-wrapping m k = record { step = k.step }

  pub Keeps-attempt : (m : Action Watcher A) → Keeps id m → Keeps id (attempt m)
  Keeps-attempt m k = record { step = k.step }

  pub Keeps-if :
      (b : Bool) (m n : Action Watcher A) → Keeps id m → Keeps id n → Keeps id (if b then m else n)
  Keeps-if true m n k l = k
  Keeps-if false m n k l = l

-- The second half of a sequence, after an outcome `r`.
Kept-then :
    {A B : Type 0} (w v : Watcher) (f : A → Action Watcher B) (r : Result A)
    → Kept w v
    → ((a : A) → Kept v ((f a v).1))
    → Kept w ((lift r >>= f) v).1
Kept-then w v f (ok a) k l = Kept-trans w v _ k (l a)
Kept-then w v f (err e) k l = k

pub Keeps-bind :
    {A B : Type 0} (id : List ℕ) (m : Action Watcher A) (f : A → Action Watcher B)
    → Keeps id m
    → ((a : A) → Keeps id (f a))
    → Keeps id (m >>= f)
Keeps-bind id m f k l = record {
  step = λ w h.
      Kept-then w ((m w).1) f ((m w).0) (k.step w h)
        (λ a. (l a).step ((m w).1) ((k.step w h).same_id ∙ h));
}

pub Keeps-send :
    (id : List ℕ) (m : List ℕ → Message) → ((i : List ℕ) → about (m i) ≡ i) → Keeps id (send m)
unfolding send
Keeps-send id m e = record {
  step = λ w h. record {
    same_id = refl;
    same_limit = refl;
    same_dev = refl;
    same_snap_dev = refl;
    same_basedir = refl;
    sends = (m w.id ∷ [], refl, (e w.id, tt));
    writes = ([], sym (append-nil w.written));
    stays_closed = λ c. c;
  };
}

pub Keeps-write :
    (id bytes : List ℕ)
    → Keeps id (modify (λ (w : Watcher). record w { written = w.written ++ bytes ∷ [] }))
Keeps-write id bytes = record {
  step = λ w h. record {
    same_id = refl;
    same_limit = refl;
    same_dev = refl;
    same_snap_dev = refl;
    same_basedir = refl;
    sends = ([], sym (append-nil w.sent), tt);
    writes = (bytes ∷ [], refl);
    stays_closed = λ c. c;
  };
}

-- A change of the counter and of the open flag.
Kept-local :
    (w : Watcher) (space : ℕ) (flag : Bool)
    → (w.is_open ≡ false → flag ≡ false)
    → Kept w (record w { allocated_space = space; is_open = flag })
Kept-local w space flag k = record {
  same_id = refl;
  same_limit = refl;
  same_dev = refl;
  same_snap_dev = refl;
  same_basedir = refl;
  sends = ([], sym (append-nil w.sent), tt);
  writes = ([], sym (append-nil w.written));
  stays_closed = k;
}

pub Keeps-count :
    (id : List ℕ) (space : Watcher → ℕ)
    → Keeps id (modify (λ (w : Watcher). record w { allocated_space = space w }))
Keeps-count id space = record { step = λ w h. Kept-local w (space w) w.is_open (λ c. c) }

pub Keeps-close : (id : List ℕ) → Keeps id (modify (λ (w : Watcher). record w { is_open = false }))
Keeps-close id = record { step = λ w h. Kept-local w w.allocated_space false (λ c. refl) }
