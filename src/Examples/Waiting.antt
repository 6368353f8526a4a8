-- ===== src/Examples/Waiting.antt =====
-- src/tcp_raw.cpp on a connection whose bytes wait for the stack.
use ip2socks.Common.{
  ℕ, ◌≤◌, ◌<◌, ◌≡◌, ◌↔◌, inl, refl, sym, none, some, List, [], ◌∷◌, ◌++◌, length, arith,
}
use ip2socks.System.{err_ok, received}
use ip2socks.Tcp.State.{TcpRawState, World}
use ip2socks.Tcp.Accept.{new_es}
use ip2socks.Tcp.Events.{Input, recv_called, sent_called, poll_called, deliver, run}
use ip2socks.Tcp.Flows.{down_out}
use ip2socks.Tcp.Invariant.{IsValid}
use ip2socks.Tcp.Safety.{started, started-IsValid}
use ip2socks.Tcp.Ending.Events.{deliver_frees_iff}
use ip2socks.Tcp.Stalling.{socks_buf_of, acks_send_nothing}
use ip2socks.Tcp.Draining.{Takes, rounds}
use ip2socks.Tcp.Draining.Rounds.{full_buffer_drains}
use ip2socks.Examples.Setting.{open_env, quiet_ev, quiet_laws, idle, zeros, length-zeros}

three : 0 < 3
three = omega arith

abbrev begun : World
begun = started open_env quiet_laws 7 3 three idle

begun-IsValid : IsValid [] [] 7 begun
begun-IsValid = started-IsValid open_env quiet_laws 7 3 three idle refl refl

-- A connection on which so many bytes wait.
abbrev filled_es : ℕ → TcpRawState
filled_es n = record (new_es 7 3) { socks_buf = zeros n; socks_buf_used = n }

abbrev filled : ℕ → World
filled n = record begun { es = some (filled_es n); trace = received 3 (some (zeros n)) ∷ [] }

filled-IsValid : (n : ℕ) → n ≤ 3028 → IsValid [] [] 7 (filled n)
unfolding new_es
filled-IsValid n le = (
  record {
    mine = refl;
    relaying = inl refl;
    buf_exact = refl;
    socks_exact = sym (length-zeros n);
    socks_bound = omega (arith, length-zeros n);
    fd_pos = three;
    fd_watched = refl;
    io_on = refl;
    once = refl;
    hooked = refl;
  },
  refl,
  record { down_exact = refl; up_exact = refl },
)

deliver_frees_iff_example :
    (w' : World) × (deliver open_env quiet_ev 7 (recv_called none err_ok) begun ≡ some (tt, w'))
    × ((w'.es ≡ none) ↔ Unit {0})
deliver_frees_iff_example =
    deliver_frees_iff open_env quiet_laws [] [] 7 (recv_called none err_ok) (new_es 7 3) begun tt
      begun-IsValid refl

abbrev acks : List Input
acks = sent_called ∷ poll_called ∷ sent_called ∷ []

acks_send_nothing_example :
    (w' : World) × (run open_env quiet_ev 7 acks (filled 2) ≡ some (tt, w'))
    × (w'.trace ≡ received 3 (some (zeros 2)) ∷ [])
    × (socks_buf_of w'.es ≡ zeros 2)
acks_send_nothing_example =
    acks_send_nothing open_env quiet_laws [] [] 7 acks (filled_es 2) (filled 2) (tt, (tt, (tt, tt)))
      (filled-IsValid 2 (omega arith)) refl

open_env-Takes : Takes open_env 7
open_env-Takes = record { is_open = λ t. refl; has_room = λ t. omega arith; accepts = λ t bs. refl }

full_buffer_drains_example :
    (k : ℕ) × (k ≤ 1514)
    × (w' : World) × (run open_env quiet_ev 7 (rounds k) (filled 1600) ≡ some (tt, w'))
    × ((c' : TcpRawState) × (w'.es ≡ some c')
        × (length c'.socks_buf ≤ 1514)
        × (down_out w'.trace ++ c'.socks_buf ≡ zeros 1600))
full_buffer_drains_example =
    full_buffer_drains open_env 7 open_env-Takes quiet_laws [] [] (filled_es 1600) (filled 1600)
      (filled-IsValid 1600 (omega arith)) refl
