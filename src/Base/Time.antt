-- ===== src/Base/Time.antt =====
-- `datetime` and `datetime.astimezone(UTC)`: an aware value is the instant that it denotes, in
-- microseconds since `datetime.min`, so that two aware values compare as their instants do.
use Prim.Native.Nat.{ℕ}
use mathlib.Core.Option.{Option, none, some}

pub data DateTime : Type 0 where
  naive : ℕ → DateTime
  aware : ℕ → DateTime

-- `_as_utc`, which refuses a naive value
abbrev pub as_utc : DateTime → Option ℕ
as_utc (naive t) = none
as_utc (aware t) = some t
