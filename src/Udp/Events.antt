-- ===== src/Udp/Events.antt =====
-- How libev calls the callbacks of src/udp_raw.cpp: a watcher fires only while it is active.
use ip2socks.Common.{none, some, List, [], ◌∷◌, if◌then◌else◌}
use ip2socks.System.{Env, pure, ◌>>◌}
use ip2socks.Tcp.State.{Ev}
use ip2socks.Udp.{E, udp_timeout_cb}
use ip2socks.Udp.Replies.{callback}

pub data Firing : Type 0 where
  answer_readable query_timeout : Firing

module _ (env : Env) (ev : Ev) where
  -- A timer that does not repeat is stopped by the loop before its callback is made.
  abbrev pub timer_fired : E (Unit {0})
  timer_fired x = some (tt, record x { timeout = ev.timer_stop x.timeout })

  unfoldable pub deliver : Firing → E (Unit {0})
  deliver answer_readable x = (if x.io then callback env ev x.handler else pure tt) x
  deliver query_timeout x =
      (if x.timeout.active then (do timer_fired; udp_timeout_cb env ev) else pure tt) x

  unfoldable pub run : List Firing → E (Unit {0})
  run [] x = some (tt, x)
  run (i ∷ is) x = elim (deliver i x) [ none ↦ none | some (_, x') ↦ run is x' ]
