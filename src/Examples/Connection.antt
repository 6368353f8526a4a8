-- ===== src/Examples/Connection.antt =====
-- src/tcp_raw.cpp on a concrete connection.
use ip2socks.Common.{◌<◌, ◌≡◌, refl, false, none, some, List, [], ◌∷◌, ◌++◌, Bytes, arith, All}
use ip2socks.System.{LwipErr, err_ok, tcp_closed, closed, received}
use ip2socks.Tcp.State.{World, conn}
use ip2socks.Tcp.Close.{no_hooks, tcp_raw_close, detach, close_es, stop_watchers, tcp_raw_free}
use ip2socks.Tcp.Upstream.{tcp_raw_recv, recv_closed}
use ip2socks.Tcp.Closing.{world, tcp_raw_close_lem}
use ip2socks.Tcp.Downstream.{write_loop}
use ip2socks.Tcp.Writing.{Written, write_loop-Written}
use ip2socks.Tcp.Events.{Input, recv_called, socks_readable, sent_called, deliver, run}
use ip2socks.Tcp.Flows.{down_in, down_out, up_in, up_out}
use ip2socks.Tcp.Invariant.{IsGone, IsValid, Ends}
use ip2socks.Tcp.Safety.{Fits, deliver-IsValid, started, started-IsValid}
use ip2socks.Tcp.Relay.{Waits, Drained, downstream_in_order, upstream_in_order, freed_is_final}
use ip2socks.Tcp.Owning.{Holding}
use ip2socks.Tcp.Owning.Runs.{closed_once}
use ip2socks.Tcp.Pipes.{Seen, Pipes, live_pipes, without, settle, serve, serve_all}
use ip2socks.Tcp.Refining.{Holds}
use ip2socks.Tcp.Refining.Runs.{Watched, run_refines}
use ip2socks.Tcp.Accept.{new_es, tcp_raw_accept}
use ip2socks.Tcp.Accepting.{Answered, tcp_raw_accept_lem}
use ip2socks.Examples.Setting.{server, new_pcb, open_env, quiet_ev, quiet_laws, idle}

three : 0 < 3
three = omega arith

-- The stack gives two bytes, the server sends, the stack closes.
abbrev inputs : List Input
inputs =
    recv_called (some (1 ∷ 2 ∷ [])) err_ok
    ∷ socks_readable
    ∷ sent_called
    ∷ recv_called none err_ok
    ∷ []

inputs-Fits : All Fits inputs
inputs-Fits = ground arith

abbrev begun : World
begun = started open_env quiet_laws 7 3 three idle

downstream_in_order_example :
    (w' : World) × (run open_env quiet_ev 7 inputs begun ≡ some (tt, w'))
    × ((rest : Bytes) × (down_in w'.trace ≡ down_out w'.trace ++ rest) × Waits w'.es rest)
downstream_in_order_example =
    downstream_in_order open_env quiet_laws 7 3 three inputs idle inputs-Fits refl refl

upstream_in_order_example :
    (w' : World) × (run open_env quiet_ev 7 inputs begun ≡ some (tt, w'))
    × ((rest : Bytes) × (up_in w'.trace ≡ up_out w'.trace ++ rest) × Drained w'.es rest)
upstream_in_order_example =
    upstream_in_order open_env quiet_laws 7 3 three inputs idle inputs-Fits refl refl

deliver-IsValid_example : Ends (IsValid [] [] 7) (deliver open_env quiet_ev 7 socks_readable begun)
deliver-IsValid_example =
    deliver-IsValid open_env quiet_laws [] [] 7 socks_readable begun tt
      (started-IsValid open_env quiet_laws 7 3 three idle refl refl)

tcp_raw_accept_lem_example :
    (r : LwipErr) × (w' : World) × (tcp_raw_accept open_env quiet_ev server
        (some new_pcb)
        err_ok
        idle
      ≡ some (r, w'))
    × Answered open_env quiet_laws server idle (some new_pcb) err_ok r w'
tcp_raw_accept_lem_example =
    tcp_raw_accept_lem open_env quiet_laws server idle (some new_pcb) err_ok refl refl

-- The connection once the stack has closed it.
abbrev ended : World
ended = record {
  es = none;
  loop = record {
    io = false;
    io_fd = 3;
    timeout = record { active = false; repeat = 0 };
    block = record { active = false; repeat = 0 };
  };
  hooks = no_hooks;
  trace = tcp_closed 7 ∷ closed 3 ∷ tcp_closed 7 ∷ [];
}

close_run : run open_env quiet_ev 7 (recv_called none err_ok ∷ []) begun ≡ some (tt, ended)
unfolding run deliver tcp_raw_recv recv_closed tcp_raw_close detach close_es stop_watchers
    tcp_raw_free new_es
close_run = refl

freed_is_final_example :
    IsGone ended.loop ended.hooks × (run open_env quiet_ev 7 inputs ended ≡ some (tt, ended))
freed_is_final_example =
    freed_is_final open_env quiet_laws 7 3 three (recv_called none err_ok ∷ []) inputs idle ended
      (tt, tt) refl refl close_run refl

tcp_raw_close_lem_example :
    tcp_raw_close quiet_ev (some 7) conn (world (new_es 7 3) begun.loop begun.hooks [])
    ≡ some (tt, ended)
unfolding new_es
tcp_raw_close_lem_example = tcp_raw_close_lem quiet_ev 7 (new_es 7 3) begun.loop begun.hooks [] refl

write_loop-Written_example :
    Written open_env 7
      (1 ∷ 2 ∷ 3 ∷ [])
      []
      []
      []
      3
      (write_loop open_env 3 7 (1 ∷ 2 ∷ 3 ∷ []) 3 (received 3 (some (1 ∷ 2 ∷ 3 ∷ [])) ∷ []))
write_loop-Written_example =
    write_loop-Written open_env 7 (1 ∷ 2 ∷ 3 ∷ []) [] [] [] 3 3
      (received 3 (some (1 ∷ 2 ∷ 3 ∷ [])) ∷ []) (omega arith) (omega arith) (omega arith)
      (record { down_exact = refl; up_exact = refl })

run_refines_example :
    (w' : World) × (ss : List Seen) × (q : Pipes) × (run open_env quiet_ev 7 inputs begun
      ≡ some (tt, w'))
    × Watched open_env quiet_ev 7 inputs begun ss w'
    × (serve_all ss (live_pipes []) ≡ some q)
    × Holds w'.es q
run_refines_example = run_refines open_env quiet_laws 7 3 three inputs idle inputs-Fits refl refl

closed_once_example :
    (w' : World) × (run open_env quiet_ev 7 inputs begun ≡ some (tt, w'))
    × Holding 7 3 [] [] w'.es w'.trace
closed_once_example = closed_once open_env quiet_laws 7 3 three inputs idle inputs-Fits refl refl

-- What is seen downwards in one step of a live connection.
abbrev downwards : Bytes → Bytes → Seen
downwards taken given = record {
  down_taken = taken;
  down_given = given;
  up_taken = [];
  up_given = [];
  ended = false;
}

-- The pipes do not give bytes in another order, nor twice.
swapped : serve (live_pipes []) (downwards (1 ∷ 2 ∷ []) (2 ∷ 1 ∷ [])) ≡ none
unfolding serve without
swapped = refl

twice : serve_all (downwards (1 ∷ []) (1 ∷ []) ∷ downwards [] (1 ∷ []) ∷ []) (live_pipes []) ≡ none
unfolding serve_all serve without settle
twice = refl
