-- ===== src/Errors/Matching.antt =====
-- What `errors.Is` finds through any number of wraps.
use coriolis_snapshot_agent.Common.{ℕ, zero, suc, ◌≡◌, refl, ◌≢◌, ◌↔◌, true, false, arith}
use coriolis_snapshot_agent.Errors.{
  Kind, Error, snap_store_overflow, value, typed, wrap, any_of, has_type, is_method, is, cause,
}

abbrev pub wraps : ℕ → Error → Error
wraps zero e = e
wraps (suc n) e = wrap (wraps n e)

is-wraps : (n : ℕ) (k j : Kind) → is (wraps n (typed k)) (any_of j) ≡ is_method k j
unfolding is
is-wraps zero k j = refl
is-wraps (suc n) k j = is-wraps n k j

pub cause-wraps : (n : ℕ) (k : Kind) → cause (wraps n (typed k)) ≡ typed k
unfolding cause
cause-wraps zero k = refl
cause-wraps (suc n) k = cause-wraps n k

pub has_type_iff : (k j : Kind) → (has_type k j ≡ true) ↔ (k ≡ j)
unfolding has_type
has_type_iff k j = ground arith

is_method_iff : (k j : Kind) → k ≢ snap_store_overflow → (is_method k j ≡ true) ↔ (k ≡ j)
unfolding is_method
is_method_iff snap_store_overflow j h = absurd (h refl)
is_method_iff k j h = has_type_iff _ j

-- However often it is wrapped, an error of one of the declared types, except
-- `ErrSnapStoreOverflow`, is matched by `errors.Is` exactly by a target of its own type, and
-- `errors.Cause` gives it back.
pub is_own_type :
    (n : ℕ) (k j : Kind)
    → k ≢ snap_store_overflow
    → ((is (wraps n (typed k)) (any_of j) ≡ true) ↔ (k ≡ j)) × (cause (wraps n (typed k)) ≡ typed k)
is_own_type n k j h = (rw (is-wraps n k j) (is_method_iff k j h), cause-wraps n k)

-- An overflow error is matched by no target of its own type, and by a `*ValueError`.
pub overflow_mismatch :
    (n : ℕ)
    → (is (wraps n (typed snap_store_overflow)) (any_of snap_store_overflow) ≡ false)
      × (is (wraps n (typed snap_store_overflow)) (any_of value) ≡ true)
unfolding is_method
overflow_mismatch n =
    (is-wraps n snap_store_overflow snap_store_overflow, is-wraps n snap_store_overflow value)
