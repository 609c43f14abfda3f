-- ===== src/Errors.antt =====
-- errors/errors.go, and the errors that come from outside the repository as far as the code tests
-- for them. The text of a message is not modelled; `wrap` is `errors.Wrap` of github.com/pkg/errors.
pub mod Matching
use coriolis_snapshot_agent.Common.{◌≡◌, refl, Bool, true, false}
use mathlib.Core.Logic.{ite}

-- The error types that errors.go declares.
pub data Kind : Type 0 where
  invalid_device volume_not_found operation_interrupted unauthorized not_found : Kind
  invalid_session bad_request conflict value snap_store_overflow : Kind

-- The sentinel values that the code compares with: `bolthold.ErrNotFound`, `bolthold.ErrKeyExists`,
-- `fs.ErrNotExist`, `fs.ErrExist`, `os.ErrClosed`, and the two of errors.go that have no type.
pub data Sentinel : Type 0 where
  bolt_not_found bolt_key_exists fs_not_exist fs_exist os_closed not_implemented no_info : Sentinel

pub data Error : Type 0 where
  typed : Kind → Error
  sentinel : Sentinel → Error
  -- `errors.Errorf`, `fmt.Errorf`, and any other failure of a call
  plain : Error
  -- a run-time panic, which nothing here recovers from
  panicked : Error
  wrap : Error → Error

-- What `errors.Is` looks for: a value of one of the types, or one sentinel.
pub data Target : Type 0 where
  any_of : Kind → Target
  this : Sentinel → Target

pub Kind-discrete : Discrete Kind
Kind-discrete = hlevel

pub Sentinel-discrete : Discrete Sentinel
Sentinel-discrete = hlevel

-- `target.(*T)`
unfoldable pub has_type : Kind → Kind → Bool
unfolding Kind-discrete
has_type k target = ite (Kind-discrete k target) true false

-- The methods `Is`. That of `ErrSnapStoreOverflow` asks for a `*ValueError`.
unfoldable pub is_method : Kind → Kind → Bool
unfolding has_type
is_method snap_store_overflow target = has_type value target
is_method k target = has_type k target

-- `errors.Is`: the error itself, its method, and then what it wraps.
unfoldable pub is : Error → Target → Bool
unfolding is_method Sentinel-discrete
is (typed k) (any_of t) = is_method k t
is (typed k) (this s) = false
is (sentinel s) (any_of t) = false
is (sentinel s) (this t) = ite (Sentinel-discrete s t) true false
is plain t = false
is panicked t = false
is (wrap e) t = is e t

-- `errors.Cause`
unfoldable pub cause : Error → Error
cause (wrap e) = cause e
cause e = e
