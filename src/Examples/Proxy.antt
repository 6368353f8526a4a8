-- ===== src/Examples/Proxy.antt =====
-- src/socks5.cpp against a concrete SOCKS5 server.
use ip2socks.Common.{◌≡◌, ◌≢◌, ◌↔◌, refl, true, none, some, [], ◌∷◌, Bytes, codes, arith, get_or}
use ip2socks.Numbers.{atoi}
use ip2socks.System.{Env, at_most}
use ip2socks.Socks5.{request_ipv4, socks5_auth, fill, method_request}
use ip2socks.Socks5.Request.{decode_request, decode-request_ipv4}
use ip2socks.Socks5.Auth.{Accepted, choice, reply, replied, socks5_auth-true_iff}
use ip2socks.Examples.Setting.{target, open_env}

decode-request_ipv4_example :
    decode_request (request_ipv4 1 target 443)
    ≡ some (record { cmd = 1; addr = target; port = 443 })
decode-request_ipv4_example = decode-request_ipv4 1 target 443 (omega arith)

abbrev host : Bytes
host = codes "10.0.0.1"

abbrev port : Bytes
port = codes "80"

socks5_auth-true_iff_example :
    (socks5_auth open_env 3 host port 1 1 []
      ≡ some (true, replied open_env 3 [] (request_ipv4 1 target (atoi port))))
    ↔ ((replied open_env 3 [] (request_ipv4 1 target (atoi port))
          ≡ replied open_env 3 [] (request_ipv4 1 target (atoi port)))
        × Accepted open_env 3 [] (request_ipv4 1 target (atoi port)))
socks5_auth-true_iff_example =
    socks5_auth-true_iff open_env 3 host port 1 [] refl
      (replied open_env 3 [] (request_ipv4 1 target (atoi port)))

-- A server that wants a password, and one that closes the connection after its choice.
abbrev strict_env : Env
strict_env = record open_env { recv = λ t fd. some (5 ∷ 2 ∷ []) }

abbrev silent_env : Env
silent_env = record open_env {
  recv = λ t fd. elim t [ [] ↦ none | _ ∷ u ↦ elim u [ [] ↦ some (5 ∷ 0 ∷ []) | _ ∷ _ ↦ some [] ] ];
}

strict_choice :
    (bs : Bytes)
    → choice strict_env 3 [] ≡ some bs
    → get_or (fill method_request bs) 0 0 ≡ 5
    → get_or (fill method_request bs) 1 0 ≢ 0
unfolding at_most
strict_choice bs e v = let same : 5 ∷ 2 ∷ [] ≡ bs = cc in rw (← same) (λ z. cc)

silent_choice : choice silent_env 3 [] ≡ some (5 ∷ 0 ∷ [])
unfolding at_most
silent_choice = refl

silent_reply : reply silent_env 3 [] (request_ipv4 1 target (atoi port)) ≡ some []
unfolding at_most
silent_reply = refl
