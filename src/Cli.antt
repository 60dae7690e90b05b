-- ===== src/Cli.antt =====
-- crates/orbit-cli/src/main.rs: the address that `orbit receive` listens on for a direct link, and
-- the endpoint that the sender then reaches. The command line's parser, the files and what is
-- printed are not modelled.
use orbit_transfer.Prelude.{
  ℕ, ◌≡◌, refl, sym, ap, ◌∙◌, inl, inr, Bool, true, false, List, [], ◌∷◌, ◌++◌, Option, none, some,
  Bool-cases, if◌then◌else◌, ◌||◌, >>=-eq-some,
}
use orbit_transfer.Direct.Peer.{
  quic_prefix, strip_prefix, starts_with, Endpoint, tcp, quic, without_prefix, endpoint, with_local,
  connect, bind, advertised, advertise,
}

-- `127.0.0.1:0`.
abbrev pub any_port : List ℕ
any_port = 49 ∷ 50 ∷ 55 ∷ 46 ∷ 48 ∷ 46 ∷ 48 ∷ 46 ∷ 49 ∷ 58 ∷ 48 ∷ []

-- The options of `orbit receive` that concern the direct link.
pub record Receive : Type 0 where
  pub listen : Option (List ℕ)
  pub quic_flag : Bool
  pub no_p2p : Bool

unfoldable pub chosen_addr : Option (List ℕ) → Bool → List ℕ
chosen_addr (some addr) true = quic_prefix ++ addr
chosen_addr (some addr) false = addr
chosen_addr none true = quic_prefix ++ any_port
chosen_addr none false = any_port

unfoldable pub listen_addr : Receive → Option (List ℕ)
unfolding chosen_addr
listen_addr options =
    if options.no_p2p then none else some (chosen_addr options.listen options.quic_flag)

endpoint-quic : (text : List ℕ) → endpoint (quic_prefix ++ text) ≡ quic text
unfolding endpoint starts_with without_prefix strip_prefix
endpoint-quic text = refl

endpoint-tcp : (text : List ℕ) → starts_with text quic_prefix ≡ false → endpoint text ≡ tcp text
unfolding endpoint
endpoint-tcp text h = rw h refl

-- The endpoint that the sender takes for what was advertised is the listener's.
bind-advertised :
    (sockets : Endpoint → Option (List ℕ)) (addr local : List ℕ) (listener : Endpoint)
    → starts_with local quic_prefix ≡ false
    → bind sockets addr ≡ some (local, listener)
    → endpoint (advertised addr local) ≡ listener
unfolding bind advertised
bind-advertised sockets addr local listener plain bound =
    let (local', got, e1) = >>=-eq-some (sockets (endpoint addr)) _ bound in
    let same : local' ≡ local = cc in
    let made : with_local (endpoint addr) local' ≡ listener = cc in
    let here : with_local (endpoint addr) local ≡ listener =
      ap (with_local (endpoint addr)) (sym same) ∙ made in
    elim (Bool-cases (starts_with addr quic_prefix)) [
      | inl is_quic ↦
          let e : endpoint addr ≡ quic (without_prefix addr) = unfold endpoint in rw is_quic refl in
          let kind : quic local ≡ listener =
            (unfold with_local in ap (λ t. with_local t local) (sym e)) ∙ here in
          let shown : advertised addr local ≡ quic_prefix ++ local = rw is_quic refl in
          ap endpoint shown ∙ endpoint-quic local ∙ kind
      | inr is_tcp ↦
          let e : endpoint addr ≡ tcp addr = endpoint-tcp addr is_tcp in
          let kind : tcp local ≡ listener =
            (unfold with_local in ap (λ t. with_local t local) (sym e)) ∙ here in
          let shown : advertised addr local ≡ local = rw is_tcp refl in
          ap endpoint shown ∙ endpoint-tcp local plain ∙ kind
    ]

abbrev pub uses_quic : Endpoint → Bool
uses_quic (tcp addr) = false
uses_quic (quic addr) = true

uses_quic-endpoint :
    (addr local : List ℕ)
    → uses_quic (with_local (endpoint addr) local) ≡ starts_with addr quic_prefix
unfolding with_local endpoint
uses_quic-endpoint addr local = go (starts_with addr quic_prefix)
  where
    go :
        (prefixed : Bool)
        → uses_quic (with_local (if prefixed then quic (without_prefix addr) else tcp addr) local)
          ≡ prefixed
    go true = refl
    go false = refl

bind_local :
    (sockets : Endpoint → Option (List ℕ)) (addr : List ℕ) (bound : List ℕ × Endpoint)
    → bind sockets addr ≡ some bound
    → sockets (endpoint addr) ≡ some bound.0
unfolding bind
bind_local sockets addr bound e =
    let (local, got, e1) = >>=-eq-some (sockets (endpoint addr)) _ e in
    let same : local ≡ bound.0 = cc in got ∙ ap some same

uses_quic-bind :
    (sockets : Endpoint → Option (List ℕ)) (addr local : List ℕ) (listener : Endpoint)
    → bind sockets addr ≡ some (local, listener)
    → uses_quic listener ≡ starts_with addr quic_prefix
unfolding bind
uses_quic-bind sockets addr local listener bound =
    let (local', got, e1) = >>=-eq-some (sockets (endpoint addr)) _ bound in
    let made : with_local (endpoint addr) local' ≡ listener = cc in
    ap uses_quic (sym made) ∙ uses_quic-endpoint addr local'

-- QUIC is asked for by the flag, or by the address.
abbrev pub asks_quic : Receive → Bool
asks_quic options =
    options.quic_flag
    || (elim options.listen [ some addr ↦ starts_with addr quic_prefix | none ↦ false ])

chosen_addr-asks_quic :
    (options : Receive)
    → starts_with (chosen_addr options.listen options.quic_flag) quic_prefix ≡ asks_quic options
unfolding starts_with chosen_addr strip_prefix
chosen_addr-asks_quic options = go options.listen options.quic_flag
  where
    go :
        (listen : Option (List ℕ)) (flag : Bool)
        → starts_with (chosen_addr listen flag) quic_prefix
          ≡ asks_quic (record options { listen = listen; quic_flag = flag })
    go none true = refl
    go none false = refl
    go (some addr) true = refl
    go (some addr) false = refl

-- When a receiver of the command line advertises an address, a direct link was not disabled, and a
-- sender that connects to this address reaches the transport and the local address on which the
-- receiver listens; that is QUIC exactly when the flag `--quic` or a `quic://` address was given.
-- A socket reports a plain local address, and the connection is made.
pub listen_addr-connect :
    (options : Receive) (sockets : Endpoint → Option (List ℕ)) (reaches : Endpoint → Bool)
    (addr : List ℕ) (listener : Endpoint)
    → ((e : Endpoint) (local : List ℕ)
        → sockets e ≡ some local
        → starts_with local quic_prefix ≡ false)
    → advertise sockets (listen_addr options) ≡ some (addr, listener)
    → reaches listener ≡ true
    → (options.no_p2p ≡ false)
      × (connect reaches addr ≡ some listener)
      × (uses_quic listener ≡ asks_quic options)
unfolding listen_addr connect advertise
listen_addr-connect options sockets reaches addr listener plain known up = go options.no_p2p known
  where
    chosen : List ℕ
    chosen = chosen_addr options.listen options.quic_flag

    go :
        (no_p2p : Bool)
        → advertise sockets (if no_p2p then none else some chosen) ≡ some (addr, listener)
        → (no_p2p ≡ false)
          × (connect reaches addr ≡ some listener)
          × (uses_quic listener ≡ asks_quic options)
    go true e = cc
    go false e =
        let (bound, is_bound, e1) = >>=-eq-some (bind sockets chosen) _ e in
        let on_addr : advertised chosen bound.0 ≡ addr = cc in
        let same : bound.1 ≡ listener = cc in
        let local_plain =
          plain (endpoint chosen) bound.0 (bind_local sockets chosen bound is_bound) in
        let whole = bind-advertised sockets chosen bound.0 bound.1 local_plain is_bound in
        let there : endpoint addr ≡ listener = ap endpoint (sym on_addr) ∙ whole ∙ same in
        (
          refl,
          rw (there, up) refl,
          ap uses_quic (sym same)
              ∙ uses_quic-bind sockets chosen bound.0 bound.1 is_bound
              ∙ chosen_addr-asks_quic options,
        )
