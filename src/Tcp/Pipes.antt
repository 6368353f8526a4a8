-- ===== src/Tcp/Pipes.antt =====
-- The abstract machine that a relayed connection of src/tcp_raw.cpp implements: two first-in
-- first-out pipes, of which the machine says what may be seen of them at each step.
use ip2socks.Common.{
  ◌≡◌, refl, Bool, true, false, Option, none, some, List, [], ◌∷◌, ◌++◌, ◌&&◌, Bytes, length, leb,
  ◌==◌, if◌then◌else◌, arith,
}

-- What is seen of a connection in one step: the bytes that went into each pipe and those that came
-- out of it, and whether the connection is over behind it.
pub record Seen : Type 0 where
  pub down_taken : Bytes
  pub down_given : Bytes
  pub up_taken : Bytes
  pub up_given : Bytes
  pub ended : Bool

-- The bytes that wait in each pipe.
pub record Pipes : Type 0 where
  pub alive : Bool
  pub down : Bytes
  pub up : Bytes

abbrev pub live_pipes : Bytes → Pipes
live_pipes down = record { alive = true; down = down; up = [] }

abbrev pub dead_pipes : Bytes → Bytes → Pipes
dead_pipes down up = record { alive = false; down = down; up = up }

-- What is behind a prefix.
unfoldable pub without : Bytes → Bytes → Option Bytes
without [] bs = some bs
without (g ∷ gs) [] = none
without (g ∷ gs) (b ∷ bs) = let rest = without gs bs in if g == b then rest else none

pub without-append : (gs rest : Bytes) → without gs (gs ++ rest) ≡ some rest
unfolding without
without-append [] rest = refl
without-append (g ∷ gs) rest = ground (arith, without-append gs rest)

-- Bytes go in at the end of a pipe, and come out at its front.
abbrev pub flow : Bytes → Bytes → Bytes → Option Bytes
flow waiting taken given = without given (waiting ++ taken)

-- Behind a step of a live connection at most 3028 bytes wait downwards and none upwards.
unfoldable pub settle : Bool → Bytes → Bytes → Option Pipes
settle true down up = some (dead_pipes down up)
settle false down [] = if leb (length down) 3028 then some (live_pipes down) else none
settle false down (b ∷ bs) = none

unfoldable pub empty : Bytes → Bool
empty [] = true
empty (b ∷ bs) = false

-- Of a connection that is over, nothing is seen any more.
unfoldable pub still : Seen → Bool
still s =
    s.ended && empty s.down_taken && empty s.down_given && empty s.up_taken && empty s.up_given

-- A step with what is seen of it; `none` if the machine does not allow it.
unfoldable pub serve : Pipes → Seen → Option Pipes
serve p s =
    if p.alive
    then (elim (flow p.down s.down_taken s.down_given) [
      | none ↦ none
      | some down ↦ elim (flow p.up s.up_taken s.up_given) [
        | none ↦ none
        | some up ↦ settle s.ended down up
      ]
    ])
    else if still s
    then some p
    else none

unfoldable pub serve_all : List Seen → Pipes → Option Pipes
serve_all [] p = some p
serve_all (s ∷ ss) p = elim (serve p s) [ none ↦ none | some q ↦ serve_all ss q ]
