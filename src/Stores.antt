-- ===== src/Stores.antt =====
-- internal/utils/timestore/timestore.go and internal/utils/durationstore/durationstore.go: maps
-- from keys to a time or a duration, with a rule for which of two values to keep. The two files
-- hold the same code at two types; here it is generic in the values and their zero. A `sync.Map`
-- holds values of any type: `corrupt` is one that the store did not put there. Each method is one
-- step: pushes to one key that overlap are not modelled.
pub mod Pushes
mod Examples
use slurm_operator.Prelude.{
  ℕ, String, Bool, List, [], ◌∷◌, Option, none, some, ltb, str_eq, if◌then◌else◌,
}
use slurm_operator.Prelude.Int.{ℤ, pos, ltb_ℤ}

pub data Entry (V : Type 0) : Type 0 where
  stored : V → Entry V
  corrupt : Entry V

abbrev pub Store : Type 0 → Type 0
Store V = String → Option (Entry V)

abbrev pub empty : {V : Type 0} → Store V
empty key = none

abbrev pub put : {V : Type 0} → String → Option (Entry V) → Store V → Store V
put key e store k = if str_eq k key then e else store k

-- `eval` says whether the new value replaces the old one.
module _ {V : Type 0} (eval : V → V → Bool) where
  unfoldable pub push : String → V → Store V → Store V
  push key new store = elim (store key) [
    | none ↦ put key (some (stored new)) store
    | some corrupt ↦ put key (some (stored new)) store
    | some (stored old) ↦ put key (some (stored (if eval old new then new else old))) store
  ]

module _ {V : Type 0} (zero_value : V) where
  unfoldable pub peek : String → Store V → V
  peek key store = elim (store key) [
    | none ↦ zero_value
    | some corrupt ↦ zero_value
    | some (stored v) ↦ v
  ]

  unfoldable pub pop : String → Store V → V × Store V
  unfolding peek
  pop key store = (peek key store, put key none store)

-- `timestore.Greater` and `timestore.Less`: `After` and `Before` of the new time.
abbrev pub time_greater : ℕ → ℕ → Bool
time_greater old new = ltb old new

abbrev pub time_less : ℕ → ℕ → Bool
time_less old new = ltb new old

-- `durationstore.Greater` and `durationstore.Less`, and the store's methods at durations.
abbrev pub duration_greater : ℤ → ℤ → Bool
duration_greater old new = ltb_ℤ old new

abbrev pub duration_less : ℤ → ℤ → Bool
duration_less old new = ltb_ℤ new old

unfoldable pub push_duration : (ℤ → ℤ → Bool) → String → ℤ → Store ℤ → Store ℤ
unfolding push
push_duration eval key new store = push eval key new store

unfoldable pub peek_duration : String → Store ℤ → ℤ
unfolding peek
peek_duration key store = peek (pos 0) key store

unfoldable pub pop_duration : String → Store ℤ → ℤ × Store ℤ
unfolding pop
pop_duration key store = pop (pos 0) key store
