-- ===== src/Watcher/Invariant.antt =====
-- worker/snapstore/character_device_watcher.go: what every operation of a watcher keeps, whatever the
-- outside answers.
use coriolis_snapshot_agent.Common.{
  ltb, length, drop, ℕ, refl, List, [], ◌∷◌, String, Option, none, some,
}
use coriolis_snapshot_agent.Errors.{Error, plain}
use coriolis_snapshot_agent.Watcher.Messages.{add_file, deleted, overflowed, failed}
use coriolis_snapshot_agent.Result.{Result, ok, err, Action, pure, attempt, gets, lift, ◌>>=◌, ◌>>◌}
use coriolis_snapshot_agent.Watcher.{
  send, removed, Watcher, Outside, give, allocate_storage, remove_snap_store_files,
}
use coriolis_snapshot_agent.Watcher.Reader.{
  go_on, uint32, buffer, half_fill_handler, overflow_handler, on_command, one_read, Event, reader,
  report, report_err, close, Next, proceed, quit,
}
use coriolis_snapshot_agent.Watcher.Log.{
  Kept, Keeps, Keeps-pure, Keeps-raise, Keeps-lift, Keeps-gets, Keeps-read, Keeps-wrapping,
  Keeps-attempt, Keeps-if, Keeps-bind, Keeps-send, Keeps-write, Keeps-count, Keeps-close,
}

ruleset keeping = (
  Keeps-pure, Keeps-raise, Keeps-lift, Keeps-gets, Keeps-read, Keeps-wrapping, Keeps-attempt,
  Keeps-bind, Keeps-write, Keeps-count, Keeps-close,
)

module _ (id : List ℕ) (out : Outside) where
  Keeps-give : (bytes : Option (List ℕ)) → Keeps id (give out bytes)
  unfolding give
  Keeps-give none = Keeps-raise id _
  Keeps-give (some bytes) = search (keeping) depth 8

  Keeps-allocate_storage : (size : ℕ) → Keeps id (allocate_storage out size)
  unfolding allocate_storage
  Keeps-allocate_storage size = search (keeping, Keeps-give) depth 12

  Keeps-send_file : (path : String) (n f : ℕ) → Keeps id (send (λ i. add_file i path n f))
  Keeps-send_file path n f = Keeps-send id _ (λ i. refl)

  Keeps-half_fill_handler : (msg : List ℕ) → Keeps id (half_fill_handler out msg)
  unfolding half_fill_handler
  Keeps-half_fill_handler msg = search (keeping, Keeps-allocate_storage, Keeps-send_file) depth 12

  Keeps-overflow_handler : Keeps id overflow_handler
  unfolding overflow_handler
  Keeps-overflow_handler =
      search (keeping, Keeps-send id (λ i. overflowed i plain) (λ i. refl)) depth 12

  Keeps-remove_snap_store_files : Keeps id (remove_snap_store_files out)
  unfolding remove_snap_store_files
  Keeps-remove_snap_store_files =
      Keeps-bind id (gets (λ (w : Watcher). w.basedir)) _ (Keeps-gets id _) (λ dir.
        Keeps-bind id (lift (removed (out.remove_all dir))) _ (Keeps-lift id _)
          (λ a. Keeps-send id deleted (λ i. refl)))

  Keeps-report : (e : Error) → Keeps id (report e)
  unfolding report
  Keeps-report e = Keeps-send id (λ i. failed i e) (λ i. refl)

  Keeps-report_err : (r : Result (Unit {0})) → Keeps id (report_err r)
  unfolding report_err
  Keeps-report_err (ok a) = Keeps-pure {A = Unit {0}} id tt
  Keeps-report_err (err e) = Keeps-report e

  -- A handler is run, its failure reported, and the loop goes on or ends.
  Keeps-handled :
      (m : Action Watcher (Unit {0})) (k : Action Watcher Next)
      → Keeps id m
      → Keeps id k
      → Keeps id (attempt m >>= λ r. report_err r >> k)
  Keeps-handled m k h l =
      Keeps-bind id _ _ (Keeps-attempt id m h)
        (λ r. Keeps-bind id _ _ (Keeps-report_err r) (λ a. l))

  Keeps-stop : Keeps id (close >> pure quit)
  Keeps-stop = Keeps-bind id _ _ (Keeps-close id) (λ a. Keeps-pure id quit)

  Keeps-on_command : (command : ℕ) (body : List ℕ) → Keeps id (on_command out command body)
  unfolding on_command
  Keeps-on_command command body =
      let go_on = Keeps-pure id proceed in
      Keeps-if id _ _ _ (Keeps-if id _ _ _ go_on Keeps-stop) (
        Keeps-if id _ _ _ go_on (
          Keeps-if id _ _ _ (Keeps-handled _ _ (Keeps-half_fill_handler body) go_on) (
            Keeps-if id _ _ _ (Keeps-handled _ _ Keeps-overflow_handler go_on) (
              Keeps-if id _ _ _ (Keeps-handled _ _ Keeps-remove_snap_store_files Keeps-stop)
                go_on))))

  Keeps-one_read : (r : Result (List ℕ)) → Keeps id (one_read out r)
  unfolding one_read
  Keeps-one_read (err e) =
      Keeps-if id _ _ _ (Keeps-pure id quit) (Keeps-bind id _ _ (Keeps-report e) (λ a. Keeps-stop))
  Keeps-one_read (ok bytes) =
      Keeps-if id (ltb (length bytes) 4) _ _ (Keeps-pure id proceed)
        (Keeps-on_command (uint32 (buffer bytes)) (drop 4 (buffer bytes)))

Keeps-go_on :
    (id : List ℕ) (next : Next) (rest : Action Watcher Next)
    → Keeps id rest
    → Keeps id (go_on next rest)
Keeps-go_on id proceed rest k = k
Keeps-go_on id quit rest k = Keeps-pure id quit

Keeps-reader : (id : List ℕ) (es : List Event) → Keeps id (reader es)
unfolding reader
Keeps-reader id [] = Keeps-pure id proceed
Keeps-reader id (e ∷ es) =
    Keeps-bind id (one_read e.outside e.read) _ (Keeps-one_read id e.outside e.read)
      (λ next. Keeps-go_on id next (reader es) (Keeps-reader id es))

-- However long a watcher reads and whatever the device and the file system answer, its settings stay
-- as they were, the messages sent before and the bytes written before stay in front of the new ones,
-- every new message names its own snap store, and a closed device is not opened again.
pub reader_keeps : (es : List Event) (w : Watcher) → Kept w ((reader es w).1)
reader_keeps es w = (Keeps-reader w.id es).step w refl
