-- ===== src/Time.antt =====
-- Times. The store writes its own times as `datetime.now(timezone.utc).isoformat()`: such a time is
-- its number of microseconds, and the order of the texts is the order of the numbers. A time that
-- a caller supplies may stand in another zone: it is the wall clock that it shows and its zone, in
-- the form that `isoformat` gives it (`T` between date and time, and `+hh:mm`); the other forms that
-- `fromisoformat` reads sort in another way as texts and are left out.
use iac_ai_runtime.Prelude.{
  ℕ, ◌+◌, ◌-◌, ◌*◌, ◌≡◌, Bool, ◌&&◌, ◌||◌, ltb, leb, nat_eq, if◌then◌else◌, arith,
}

-- A text that carries a zone. `ahead` is 1440 more than the minutes by which the zone is ahead of
-- UTC, so that UTC is 1440 and every zone is at most 2880.
pub record Stamp : Type 0 where
  pub wall : ℕ
  pub ahead : ℕ

-- What `datetime.fromisoformat` makes of a text.
pub data Iso : Type 0 where
  malformed : Iso
  naive : ℕ → Iso
  aware : Stamp → Iso

abbrev pub minute : ℕ
minute = 60000000

abbrev pub second : ℕ
second = 1000000

-- A time that the store writes.
abbrev pub utc : ℕ → Stamp
utc t = record { wall = t; ahead = 1440 }

-- "+hh:mm" sorts before "-hh:mm", and each by its digits.
abbrev pub zone_rank : ℕ → ℕ
zone_rank a = if leb 1440 a then a - 1440 else 2880 - a

-- `a <= b` of the two texts, in Python and in SQL
unfoldable pub text_leb : Stamp → Stamp → Bool
text_leb a b =
    ltb a.wall b.wall || nat_eq a.wall b.wall && leb (zone_rank a.ahead) (zone_rank b.ahead)

-- `a <= b` of the two instants
unfoldable pub instant_leb : Stamp → Stamp → Bool
instant_leb a b = leb (a.wall + b.ahead * minute) (b.wall + a.ahead * minute)

-- `a == b` of the two texts
unfoldable pub same_stamp : Stamp → Stamp → Bool
same_stamp a b = nat_eq a.wall b.wall && nat_eq a.ahead b.ahead

-- In UTC the two orders are one.
pub text_leb-utc : (m n : ℕ) → text_leb (utc m) (utc n) ≡ leb m n
unfolding text_leb
text_leb-utc m n = ground arith

pub instant_leb-utc : (m n : ℕ) → instant_leb (utc m) (utc n) ≡ leb m n
unfolding instant_leb
instant_leb-utc m n = ground arith
