-- ===== src/Examples/Serving.antt =====
-- src/tcp_raw.cpp from its start, with a connection that it accepted.
use ip2socks.Common.{◌<◌, ◌≡◌, refl, none, some, [], ◌∷◌, arith}
use ip2socks.System.{Trace, err_ok, at_most}
use ip2socks.Numbers.{decimal, decimal_on, atoi, digits}
use ip2socks.Socks5.{
  method_chosen, version_ok, socks5_connect, socks5_sockset, socks5_auth, send_request, await_reply,
  aton_fresh,
}
use ip2socks.Tcp.State.{World}
use ip2socks.Tcp.Accept.{new_es, allocate, handshake, start_relay, tcp_raw_accept}
use ip2socks.Tcp.Safety.{started}
use ip2socks.Tcp.Server.{unaccepted, Conn, Reached, begin, onwards, accepted}
use ip2socks.Tcp.Events.{deliver, socks_readable}
use ip2socks.Tcp.Server.Reaching.{IsSafe, serves_all}
use ip2socks.Examples.Setting.{server, new_pcb, open_env, quiet_ev, quiet_laws}

three : 0 < 3
three = omega arith

-- The calls of the handshake.
abbrev shaken : Trace
shaken = elim (tcp_raw_accept open_env quiet_ev server (some new_pcb) err_ok unaccepted) [
  | none ↦ []
  | some (r, w) ↦ w.trace
]

abbrev serving : World
serving = started open_env quiet_laws 7 3 three (record unaccepted { trace = shaken })

serving_run :
    tcp_raw_accept open_env quiet_ev server (some new_pcb) err_ok unaccepted
    ≡ some (err_ok, serving)
unfolding tcp_raw_accept handshake start_relay allocate new_es socks5_connect socks5_sockset
    socks5_auth method_chosen version_ok send_request await_reply aton_fresh at_most decimal
    decimal_on atoi digits
serving_run = refl

abbrev connection : Conn
connection = record { pcb = 7; fd = 3; shaken = serving.trace; world = serving }

connection-Reached : Reached quiet_ev (connection ∷ [])
unfolding new_es
connection-Reached = onwards begin (
    accepted [] open_env server new_pcb err_ok err_ok serving (new_es 7 3) serving_run refl
      λ fd e. tt)

serves_all_example :
    (w : World) × (deliver open_env quiet_ev 7 socks_readable serving ≡ some (tt, w))
    × IsSafe quiet_laws (record connection { world = w } ∷ [])
serves_all_example =
    serves_all quiet_laws [] [] connection open_env socks_readable connection-Reached tt
