-- ===== src/Socks5/Auth.antt =====
-- What `socks5_auth` and `socks5_connect` of src/socks5.cpp do on the wire.
use ip2socks.Common.{
  ℕ, ◌≡◌, ◌≢◌, ◌↔◌, ◌⊎◌, inl, inr, refl, true, false, Option, none, some, [], ◌∷◌, arith, Bytes,
  get_or, Option-cases, Bool-cases,
}
use ip2socks.Numbers.{atoi}
use ip2socks.System.{Ip4, Env, Trace, sent, received, at_most}
use ip2socks.Socks5.{
  fill, method_request, method_chosen, request_ipv4, aton_fresh, send_request, await_reply,
  socks5_auth, version_ok,
}

module _ (env : Env) (fd : ℕ) (t : Trace) where
  -- The trace once the method request is out, the server's choice, and the trace after it.
  abbrev pub asked : Trace
  asked = sent fd method_request (env.send t fd method_request) ∷ t

  abbrev pub choice : Option Bytes
  choice = at_most 2 (env.recv asked fd)

  abbrev pub chosen : Trace
  chosen = received fd choice ∷ asked

  -- The trace once a request is out, and the server's reply to it.
  abbrev pub requested : Bytes → Trace
  requested req = sent fd req (env.send chosen fd req) ∷ chosen

  abbrev pub reply : Bytes → Option Bytes
  reply req = at_most 10 (env.recv (requested req) fd)

  abbrev pub replied : Bytes → Trace
  replied req = received fd (reply req) ∷ requested req

  -- The server's choice was version 5 and no authentication, and its reply began with version 5.
  -- The bytes that a short answer leaves out keep what the buffer held: 5 1 0, and then the choice.
  abbrev pub Accepted : Bytes → Type 0
  Accepted req =
      (bs : Bytes) × (cs : Bytes) × (choice ≡ some bs)
      × (reply req ≡ some cs)
      × (get_or (fill method_request bs) 0 0 ≡ 5)
      × (get_or (fill method_request bs) 1 0 ≡ 0)
      × (get_or (fill (fill method_request bs) cs) 0 0 ≡ 5)

method_chosen-eq : (b : Bytes) → method_chosen b ≡ true → (get_or b 0 0 ≡ 5) × (get_or b 1 0 ≡ 0)
unfolding method_chosen
method_chosen-eq b m = ground arith

version_ok-eq : (b : Bytes) → version_ok b ≡ true → get_or b 0 0 ≡ 5
unfolding version_ok
version_ok-eq b m = ground arith

module _ (env : Env) (fd : ℕ) (host port : Bytes) (cmd : ℕ) {ip : Ip4} (t : Trace)
    (known : env.inet_aton host ≡ some ip) where
  pub auth_chosen :
      (bs : Bytes)
      → choice env fd t ≡ some bs
      → method_chosen (fill method_request bs) ≡ true
      → let req = request_ipv4 cmd ip (atoi port) in
        socks5_auth env fd host port cmd 1 t ≡ (elim (reply env fd t req) [
          | none ↦ some (false, replied env fd t req)
          | some cs ↦ some (version_ok (fill (fill method_request bs) cs), replied env fd t req)
        ])
  unfolding socks5_auth send_request await_reply aton_fresh
  auth_chosen bs e m = ground arith

  pub auth_refused :
      (bs : Bytes)
      → choice env fd t ≡ some bs
      → method_chosen (fill method_request bs) ≡ false
      → socks5_auth env fd host port cmd 1 t ≡ some (false, chosen env fd t)
  unfolding socks5_auth
  auth_refused bs e m = ground arith

  pub auth_failed :
      choice env fd t ≡ none → socks5_auth env fd host port cmd 1 t ≡ some (false, chosen env fd t)
  unfolding socks5_auth
  auth_failed e = ground arith

  auth_replied :
      (bs cs : Bytes)
      → choice env fd t ≡ some bs
      → method_chosen (fill method_request bs) ≡ true
      → let req = request_ipv4 cmd ip (atoi port) in
        reply env fd t req ≡ some cs
        → (u : Trace) → socks5_auth env fd host port cmd 1 t ≡ some (true, u)
        → (u ≡ replied env fd t req) × (version_ok (fill (fill method_request bs) cs) ≡ true)
  auth_replied bs cs c m r u e = ground (arith, auth_chosen bs c m)

  auth-Accepted :
      (u : Trace)
      → socks5_auth env fd host port cmd 1 t ≡ some (true, u)
      → let req = request_ipv4 cmd ip (atoi port) in
        (u ≡ replied env fd t req) × Accepted env fd t req
  auth-Accepted u e =
      let req = request_ipv4 cmd ip (atoi port) in
      elim (Option-cases (choice env fd t)) [
        | inl c ↦ cc (auth_failed c)
        | inr (bs, c) ↦ elim (Bool-cases (method_chosen (fill method_request bs))) [
          | inl m ↦ elim (Option-cases (reply env fd t req)) [
            | inl r ↦ ground (arith, auth_chosen bs c m)
            | inr (cs, r) ↦
                let ran = auth_replied bs cs c m r u e in
                (
                  ran.0,
                  (
                    bs,
                    cs,
                    c,
                    r,
                    (method_chosen-eq _ m).0,
                    (method_chosen-eq _ m).1,
                    version_ok-eq _ ran.1,
                  ),
                )
          ]
          | inr m ↦ cc (auth_refused bs c m)
        ]
      ]

  Accepted-auth :
      let req = request_ipv4 cmd ip (atoi port) in
      Accepted env fd t req
      → socks5_auth env fd host port cmd 1 t ≡ some (true, replied env fd t req)
  unfolding method_chosen version_ok
  Accepted-auth (bs, cs, c, r, v, m, w) = ground (arith, auth_chosen bs c)

module _ (env : Env) (fd : ℕ) (host port : Bytes) (cmd : ℕ) {ip : Ip4} (t : Trace)
    (known : env.inet_aton host ≡ some ip) where
  -- With an address that `inet_aton` reads, `socks5_auth` for an IPv4 target returns success with a
  -- trace exactly if the server's two answers are accepted and the trace is: the method request,
  -- the choice, the request for this command, address and port, and the reply.
  pub socks5_auth-true_iff :
      (u : Trace)
      → (socks5_auth env fd host port cmd 1 t ≡ some (true, u)) ↔ (
          (u ≡ replied env fd t (request_ipv4 cmd ip (atoi port)))
          × Accepted env fd t (request_ipv4 cmd ip (atoi port)))
  socks5_auth-true_iff u = (
    auth-Accepted env fd host port cmd t known u,
    λ (e, a). rw e (Accepted-auth env fd host port cmd t known a),
  )

  -- If the server fails to choose, or what it chooses leaves another byte than version 5 or method
  -- 0 in the buffer, `socks5_auth` returns failure and has sent no request.
  socks5_auth_refused :
      ((bs : Bytes)
        → choice env fd t ≡ some bs
        → get_or (fill method_request bs) 0 0 ≡ 5
        → get_or (fill method_request bs) 1 0 ≢ 0)
      → socks5_auth env fd host port cmd 1 t ≡ some (false, chosen env fd t)
  socks5_auth_refused h = elim (Option-cases (choice env fd t)) [
    | inl c ↦ auth_failed env fd host port cmd t known c
    | inr (bs, c) ↦ elim (Bool-cases (method_chosen (fill method_request bs))) [
      | inl m ↦ absurd (h bs c (method_chosen-eq _ m).0 (method_chosen-eq _ m).1)
      | inr m ↦ auth_refused env fd host port cmd t known bs c m
    ]
  ]

  -- After the choice 5 0, `socks5_auth` returns success at every reply that begins with 5, whatever
  -- its reply code and its length, and also if the server closes the connection without a reply.
  pub socks5_auth_ignores_reply :
      let req = request_ipv4 cmd ip (atoi port) in
      (rest : Bytes)
      → choice env fd t ≡ some (5 ∷ 0 ∷ [])
      → (reply env fd t req ≡ some (5 ∷ rest)) ⊎ (reply env fd t req ≡ some [])
      → socks5_auth env fd host port cmd 1 t ≡ some (true, replied env fd t req)
  socks5_auth_ignores_reply rest c (inl r) =
      Accepted-auth env fd host port cmd t known (5 ∷ 0 ∷ [], 5 ∷ rest, c, r, refl, refl, refl)
  socks5_auth_ignores_reply rest c (inr r) =
      Accepted-auth env fd host port cmd t known (5 ∷ 0 ∷ [], [], c, r, refl, refl, refl)
