-- ===== src/Storage/Fiemap/Walk.antt =====
-- internal/util/fiemap.go: the portions put together are the extents of the file.
use mathlib.Core.List.{append_assoc, append-nil}
use coriolis_snapshot_agent.Common.{
  ℕ, zero, suc, ◌+◌, ◌^◌, ◌<◌, ◌≤◌, ◌≡◌, refl, ap, List, [], ◌∷◌, ◌++◌, some, length, take, drop,
  select, ltb, arith, length-drop, ◌∙◌, sym,
}
use coriolis_snapshot_agent.Result.{Result, ok}
use coriolis_snapshot_agent.Storage.Fiemap.{
  Extent, fe_count, next_start, walk, walk_fiemap, get_extents,
}

abbrev pub end_of : Extent → ℕ
end_of e = e.logical + e.length

-- Extents in the order of the file, none empty, none before `start`.
abbrev pub IsLaidOut : ℕ → List Extent → Type 0
IsLaidOut start [] = Unit
IsLaidOut start (e ∷ es) =
    (start ≤ e.logical) × (0 < e.length) × (end_of e < 2 ^ 64) × IsLaidOut (end_of e) es

-- What FIEMAP reports from `start` on: the extents that end behind it, up to a number of them.
abbrev pub reported : List Extent → ℕ → ℕ → List Extent
reported es start count = take count (select (λ e. ltb start (end_of e)) es)

-- Where the extents end.
abbrev reach : ℕ → List Extent → ℕ
reach start [] = start
reach start (e ∷ es) = reach (end_of e) es

reach_from : (start : ℕ) (es : List Extent) → IsLaidOut start es → start ≤ reach start es
reach_from start [] h = omega arith
reach_from start (e ∷ es) (a, b, c, h) = omega (arith, a, b, reach_from (end_of e) es h)

IsLaidOut-before :
    (start : ℕ) (xs ys : List Extent) → IsLaidOut start (xs ++ ys) → IsLaidOut start xs
IsLaidOut-before start [] ys h = tt
IsLaidOut-before start (x ∷ xs) ys (a, b, c, h) = (a, b, c, IsLaidOut-before (end_of x) xs ys h)

-- Behind `t` nothing is left out.
select-ahead :
    (t start : ℕ) (es : List Extent)
    → t ≤ start
    → IsLaidOut start es
    → select (λ e. ltb t (end_of e)) es ≡ es
select-ahead t start [] l h = refl
select-ahead t start (e ∷ es) l (a, b, c, h) =
    let rest = select-ahead t (end_of e) es (omega (arith, l, a)) h in ground (arith, rest, l, a, b)

select-past :
    (start : ℕ) (xs ys : List Extent)
    → IsLaidOut start (xs ++ ys)
    → select (λ e. ltb (reach start xs) (end_of e)) (xs ++ ys) ≡ ys
select-past start [] ys h = select-ahead start start ys (omega arith) h
select-past start (x ∷ xs) ys (a, b, c, h) =
    let rest = select-past (end_of x) xs ys h in
    let beyond = reach_from (end_of x) xs (IsLaidOut-before (end_of x) xs ys h) in
    ground (arith, rest, beyond)

next_start-reach :
    (start : ℕ) (e : Extent) (es : List Extent)
    → IsLaidOut start (e ∷ es)
    → next_start (e ∷ es) ≡ reach start (e ∷ es)
next_start-reach start e [] (a, b, c, h) = omega (arith, c)
next_start-reach start e (x ∷ es) (a, b, c, h) = next_start-reach (end_of e) x es h

take-drop : {A : Type 0} (n : ℕ) (xs : List A) → take n xs ++ drop n xs ≡ xs
take-drop zero xs = refl
take-drop (suc n) [] = refl
take-drop (suc n) (x ∷ xs) = ap (λ r. x ∷ r) (take-drop n xs)

next_start_at : (xs ys : List Extent) → IsLaidOut 0 (xs ++ ys) → next_start xs ≡ reach 0 xs
next_start_at [] ys h = refl
next_start_at (x ∷ xs) ys h = next_start-reach 0 x xs (IsLaidOut-before 0 (x ∷ xs) ys h)

module _ (fiemap : ℕ → ℕ → Result (List Extent)) (es : List Extent) (laid : IsLaidOut 0 es)
    (reports : (start count : ℕ) → fiemap start count ≡ ok (reported es start count)) where
  -- The next portion begins where the last one ended.
  portion :
      (xs ys : List Extent)
      → xs ++ ys ≡ es
      → fiemap (next_start xs) fe_count ≡ ok (take fe_count ys)
  portion xs ys e =
      let h : IsLaidOut 0 (xs ++ ys) = rw e laid in
      let kept : select (λ x. ltb (next_start xs) (end_of x)) (xs ++ ys) ≡ ys =
        rw (next_start_at xs ys h) (select-past 0 xs ys h) in
      let all : select (λ x. ltb (next_start xs) (end_of x)) es ≡ ys = rw (← e) kept in
      reports (next_start xs) fe_count ∙ ap (λ r. ok (take fe_count r)) all

  walk_on :
      (fuel : ℕ) (xs ys : List Extent)
      → xs ++ ys ≡ es
      → length ys < fuel
      → walk fiemap fuel xs ≡ some (ok es)
  unfolding walk
  walk_on zero xs ys e l = absurd (omega (arith, l))
  walk_on (suc fuel) xs [] e l =
      rw (walk, portion xs [] e) (ap (λ r. some (ok r)) (sym (append-nil xs) ∙ e))
  walk_on (suc fuel) xs (y ∷ ys) e l =
      let whole : (xs ++ y ∷ take 7999 ys) ++ drop 7999 ys ≡ es =
        append_assoc xs (y ∷ take 7999 ys) (drop 7999 ys)
        ∙ ap (λ r. xs ++ y ∷ r) (take-drop 7999 ys)
        ∙ e in
      rw (walk, portion xs (y ∷ ys) e)
        (walk_on fuel (xs ++ y ∷ take 7999 ys) (drop 7999 ys) whole
          (omega (arith, l, length-drop 7999 ys)))

  -- Where FIEMAP reports the extents of a file that are laid out below 2 ^ 64, portion by portion,
  -- `GetExtents` of an open file ends after at most one call more than there are extents, and gives
  -- all of them, each once and in their order.
  pub get_extents_all :
      (fuel : ℕ) → length es < fuel → get_extents fiemap fuel (ok tt) ≡ some (ok es)
  unfolding get_extents walk_fiemap
  get_extents_all fuel l = walk_on fuel [] es refl l
