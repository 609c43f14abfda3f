-- ===== src/Wire/Format.antt =====
-- The format of the messages, read by the receiver: a parser for each, written from the layout that
-- the comments of types.go give and not from the code that writes them.
use coriolis_snapshot_agent.Common.{
  ℕ, zero, suc, ◌+◌, ◌*◌, List, [], ◌∷◌, Option, none, some, eqb, if◌then◌else◌,
}
use coriolis_snapshot_agent.Types.{DevId, Range}
use coriolis_snapshot_agent.Wire.{
  InitiateParams, NextPortionParams, MultidevParams, charcmd_initiate, charcmd_next_portion,
}

abbrev pub Parser : Type 0 → Type 0
Parser A = List ℕ → Option (A × List ℕ)

abbrev pub return : {A : Type 0} → A → Parser A
return a bs = some (a, bs)

abbrev pub fail : {A : Type 0} → Parser A
fail bs = none

infixl 5 ◌>>=◌ ◌>>◌
abbrev pub ◌>>=◌ : {A B : Type 0} → Parser A → (A → Parser B) → Parser B
◌>>=◌ p f bs = elim (p bs) [ none ↦ none | some (a, rest) ↦ f a rest ]

abbrev pub ◌>>◌ : {B : Type 0} → Parser (Unit {0}) → Parser B → Parser B
m >> k = m >>= λ _. k

abbrev pub byte : Parser ℕ
byte [] = none
byte (b ∷ bs) = some (b, bs)

-- A number of `w` bytes, the lowest first.
unfoldable pub number : ℕ → Parser ℕ
number zero = return 0
number (suc w) = do b ← byte; n ← number w; return (b + 256 * n)

unfoldable pub bytes : ℕ → Parser (List ℕ)
bytes zero = return []
bytes (suc k) = do b ← byte; bs ← bytes k; return (b ∷ bs)

unfoldable pub many : {A : Type 0} → ℕ → Parser A → Parser (List A)
many zero p = return []
many (suc k) p = do a ← p; rest ← many k p; return (a ∷ rest)

abbrev pub dev_id : Parser DevId
dev_id = do major ← number 4; minor ← number 4; return (record { major = major; minor = minor })

abbrev pub range : Parser Range
range = do left ← number 8; right ← number 8; return (record { left = left; right = right })

-- The command number that the message must begin with.
unfoldable pub expect : ℕ → Parser (Unit {0})
expect command = do found ← number 4; if eqb found command then return tt else fail

unfoldable pub initiate : Parser InitiateParams
initiate = do
  expect charcmd_initiate
  id ← bytes 16
  empty_limit ← number 8
  device ← dev_id
  count ← number 4
  device_ids ← many count dev_id
  return (record {
    id = id;
    empty_limit = empty_limit;
    snap_store_device_id = device;
    count = count;
    device_ids = device_ids;
  })

unfoldable pub next_portion : Parser NextPortionParams
next_portion = do
  expect charcmd_next_portion
  id ← bytes 16
  count ← number 4
  ranges ← many count range
  return (record { id = id; count = count; ranges = ranges })

-- The message behind the given command number.
unfoldable pub multidev : ℕ → Parser MultidevParams
multidev expected = do
  expect expected
  id ← bytes 16
  device ← dev_id
  count ← number 4
  ranges ← many count range
  return (record { id = id; snap_store_device_id = device; count = count; ranges = ranges })

-- The parser must use up the message.
abbrev pub whole : {A : Type 0} → Parser A → List ℕ → Option A
whole p bs = elim (p bs) [ none ↦ none | some (a, rest) ↦ elim rest [ [] ↦ some a | _ ∷ _ ↦ none ] ]
