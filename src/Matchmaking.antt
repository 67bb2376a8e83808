-- ===== src/Matchmaking.antt =====
-- queue.hpp and queue.cpp (server/src/matchmaking): the players who wait for an opponent. The mutex
-- makes each call one step. A time point counts nanoseconds; the steady clock never goes back, so
-- the time of a call is not before an entry's. Waiting times that overflow an int are left out.
pub mod Order
pub mod Queue
mod Tests
use Prim.Native.String.{String}
use uud.Base.Int.{ℤ, ◌-ℤ◌, ltb_ℤ, abs, pos}
use uud.Base.{
  ltb, leb, ◌==◌, if◌then◌else◌, length, push_back, find_erase, any_of, erase_if, ℕ, ◌+◌, ◌-◌, ◌*◌,
  ◌/◌, Bool, true, false, not, Option, none, some, List, [], ◌∷◌,
}

pub record QueueEntry : Type 0 where
  pub player_id : ℕ
  pub username : String
  pub deck_id : String
  pub elo : ℤ
  pub enqueued_at : ℕ

abbrev pub max_queue_size : ℕ
max_queue_size = 10000

abbrev pub is_player : ℕ → QueueEntry → Bool
is_player player_id e = e.player_id == player_id

unfoldable pub add : QueueEntry → List QueueEntry → Bool × List QueueEntry
add entry entries =
    if leb max_queue_size (length entries)
    then (false, entries)
    else (if any_of (is_player entry.player_id) entries
        then (false, entries)
        else (true, push_back entries entry))

unfoldable pub remove : ℕ → List QueueEntry → List QueueEntry
remove player_id entries = erase_if (is_player player_id) entries

-- The range of ratings that an entry accepts at a time: 100, and 10 for each second of waiting.
abbrev pub rating_range : ℕ → QueueEntry → ℕ
rating_range now e = 100 + (now - e.enqueued_at) / 1000000000 * 10

abbrev pub leb_ℤ : ℤ → ℤ → Bool
leb_ℤ a b = not (ltb_ℤ b a)

unfoldable pub accepts : ℕ → QueueEntry → QueueEntry → Bool
accepts now a b = leb_ℤ (abs (a.elo -ℤ b.elo)) (pos (rating_range now a))

abbrev pub Pairing : Type 0
Pairing = QueueEntry × QueueEntry × List QueueEntry

abbrev pub keep_first : QueueEntry → Option Pairing → Option Pairing
keep_first x none = none
keep_first x (some (a, b, rest)) = some (a, b, x ∷ rest)

abbrev pub pair_with :
    QueueEntry → Option (QueueEntry × List QueueEntry) → Option Pairing → Option Pairing
pair_with a none later = keep_first a later
pair_with a (some (b, rest)) later = some (a, b, rest)

-- The two loops: the first entry with a later one in its range, and the first such later one.
unfoldable pub search : ℕ → List QueueEntry → Option Pairing
search now [] = none
search now (a ∷ entries) = pair_with a (find_erase (accepts now a) entries) (search now entries)

unfoldable pub find_match : ℕ → List QueueEntry → Option Pairing
find_match now entries = if ltb (length entries) 2 then none else search now entries

unfoldable pub contains_player : ℕ → List QueueEntry → Bool
contains_player player_id = any_of (is_player player_id)

unfoldable pub size : List QueueEntry → ℕ
size = length

abbrev position_from : ℕ → ℕ → List QueueEntry → ℕ
position_from n player_id [] = 0
position_from n player_id (e ∷ es) =
    let rest = position_from (n + 1) player_id es in if is_player player_id e then n + 1 else rest

unfoldable pub position : ℕ → List QueueEntry → ℕ
position player_id = position_from 0 player_id
