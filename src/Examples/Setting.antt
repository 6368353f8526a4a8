-- ===== src/Examples/Setting.antt =====
-- A SOCKS5 server that grants every request, a stack that takes every byte, and an event loop.
use ip2socks.Common.{
  ℕ, zero, suc, ◌≡◌, ap, refl, true, false, none, some, [], ◌∷◌, Bytes, codes, length, ltb,
}
use ip2socks.System.{Ip4, Env, err_ok}
use ip2socks.Tcp.State.{Ev, EvLaws, World}
use ip2socks.Tcp.Close.{no_hooks}
use ip2socks.Tcp.Accept.{NewPcb, SocksServer}

abbrev pub target : Ip4
target = record { a = 10; b = 0; c = 0; d = 1 }

-- The answer to every read: a choice or a reply as `recv` cuts it.
abbrev pub answer : Bytes
answer = 5 ∷ 0 ∷ 0 ∷ 1 ∷ 0 ∷ 0 ∷ 0 ∷ 0 ∷ 0 ∷ 0 ∷ b'h' ∷ b'i' ∷ []

abbrev pub open_env : Env
open_env = record {
  socket = λ t k. some 3;
  setsockopt = λ t fd o. true;
  connect = λ t fd a. true;
  bind = λ t fd. true;
  send = λ t fd bs. some (length bs);
  sendto = λ t fd bs a. some (length bs);
  recv = λ t fd. some answer;
  tcp_write = λ t pcb bs. err_ok;
  tcp_output = λ t pcb. err_ok;
  tcp_sndbuf = λ t pcb. 100;
  tcp_sndqueuelen = λ t pcb. 0;
  pcb_state = λ t pcb. 4;
  pbuf_alloc = λ t n. true;
  uninit = λ t i. 0;
  inet_aton = λ s. some target;
  inet_addr = λ s. target;
  inet_ntop = λ ip. codes "10.0.0.1";
}

abbrev pub quiet_ev : Ev
quiet_ev = record {
  timer_start = λ t. record t { active = true };
  timer_stop = λ t. record t { active = false };
  timer_again = λ t. record t { active = ltb 0 t.repeat };
  io_start = λ b. true;
  io_stop = λ b. false;
}

pub quiet_laws : EvLaws quiet_ev
quiet_laws = record {
  stop_active = λ t. refl;
  stop_repeat = λ t. refl;
  start_active = λ t. refl;
  start_repeat = λ t. refl;
  again_active = λ t h. rw h refl;
  again_repeat = λ t. refl;
  io_start_active = λ b. refl;
  io_stop_active = λ b. refl;
}

-- Before anything was accepted.
abbrev pub idle : World
idle = record {
  es = none;
  loop = record {
    io = false;
    io_fd = 0;
    timeout = record { active = false; repeat = 0 };
    block = record { active = false; repeat = 0 };
  };
  hooks = no_hooks;
  trace = [];
}

unfoldable pub zeros : ℕ → Bytes
zeros zero = []
zeros (suc n) = 0 ∷ zeros n

pub length-zeros : (n : ℕ) → length (zeros n) ≡ n
unfolding zeros
length-zeros zero = refl
length-zeros (suc n) = ap suc (length-zeros n)

abbrev pub server : SocksServer
server = record { socks_server = codes "10.0.0.9"; socks_port = codes "1080" }

abbrev pub new_pcb : NewPcb
new_pcb = record { pcb = 7; local_ip = target; local_port = 80 }
