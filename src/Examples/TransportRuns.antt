-- ===== src/Examples/TransportRuns.antt =====
-- crates/orbit-crypto and crates/orbit-transport on small inputs.
use orbit_transfer.Prelude.{
  false, true, ◌++◌, ℕ, ◌≡◌, refl, true, List, [], ◌∷◌, none, some, arith, ltb, All, length, ◌%◌,
  ◌<◌,
}
use orbit_transfer.Prelude.Le.{le_bytes}
use orbit_transfer.Wire.{OrbitMessage, hello, meta, symbol, encode, encode_parts, role_sender}
use orbit_transfer.Direct.{message, recv_frames}
use orbit_transfer.Direct.Frames.{joined_pieces, recv_frames-encode, recv_frames-drops}
use orbit_transfer.Crypto.{Primitives}
use orbit_transfer.Crypto.Nonce.{nonce_injective}
use orbit_transfer.Scheduler.{SchedulerFloat, new, with_relays}
use orbit_transfer.Scheduler.RoundRobin.{picked, turns, picked-turns}
use orbit_transfer.Session.{ReceiverSession, RecvPath, relay, run, direct_message, direct_gone}
use orbit_transfer.Session.Receiving.{SameStep, run-overtaken}
use orbit_transfer.Examples.Platforms.{counting}

abbrev session : ℕ
session = 42

abbrev esi : ℕ
esi = 7

nonce_injective_example : (session ≡ session) × (esi ≡ esi)
nonce_injective_example =
    nonce_injective session session esi esi (omega arith) (omega arith) (omega arith) (omega arith)
      refl

-- Even symbols go to a relay.
abbrev pub halves : SchedulerFloat
halves = record {
  Float = ℕ;
  half = 1;
  of_ℕ = λ n. n;
  mul = λ a b. a;
  div = λ a b. 1;
  fract = λ a. a % 2;
  ltb = ltb;
}

picked-turns_example :
    let relays : List ℕ = picked halves (0 ∷ 1 ∷ 2 ∷ []) (with_relays halves 2 (new halves 1 1)) in
    (relays ≡ turns (length relays) 2 0) × All (λ i. i < 2) (turns (length relays) 2 0)
picked-turns_example = picked-turns halves 1 1 2 (0 ∷ 1 ∷ 2 ∷ [])

-- A cipher that changes nothing.
abbrev pub clear : Primitives
clear = record {
  derive = λ secret. secret;
  encrypt = λ key nonce aad msg. msg;
  decrypt = λ key nonce aad msg. some msg;
}

abbrev waiting : ReceiverSession counting clear
waiting = record {
  n_relays = 1;
  relays_closed = 0;
  has_direct = true;
  cipher = none;
  decoder = none;
  pending = [];
  session_id = 7;
  filename = none;
}

abbrev announced : RecvPath counting clear
announced = relay (meta 7 [] 3 2 2 3)

abbrev early : RecvPath counting clear
early = relay (symbol 7 0 (1 ∷ 2 ∷ []))

abbrev late : RecvPath counting clear
late = direct_message (symbol 7 1 (3 ∷ 0 ∷ []))

run-overtaken_example :
    SameStep counting clear
      (run counting clear (early ∷ late ∷ announced ∷ direct_gone ∷ []) waiting)
      (run counting clear (announced ∷ early ∷ late ∷ direct_gone ∷ []) waiting)
run-overtaken_example =
    run-overtaken counting clear 7 ((false, 0, 1 ∷ 2 ∷ []) ∷ (true, 1, 3 ∷ 0 ∷ []) ∷ [])
      (direct_gone ∷ []) 7 [] 3 2 2 3 waiting

abbrev greeting : OrbitMessage
greeting = hello 7 role_sender

-- A HELLO in two reads, and one more read.
recv_frames-encode_example :
    recv_frames
      ((1 ∷ 9 ∷ []) ∷ (0 ∷ 0 ∷ 0 ∷ 7 ∷ 0 ∷ 0 ∷ 0 ∷ 0 ∷ 0 ∷ 0 ∷ 0 ∷ 1 ∷ []) ∷ (4 ∷ []) ∷ [])
    ≡ (message greeting, (4 ∷ []) ∷ [])
unfolding encode_parts le_bytes encode joined_pieces
recv_frames-encode_example =
    recv_frames-encode greeting (omega arith) (omega arith) tt
      ((1 ∷ 9 ∷ []) ∷ (0 ∷ 0 ∷ 0 ∷ 7 ∷ 0 ∷ 0 ∷ 0 ∷ 0 ∷ 0 ∷ 0 ∷ 0 ∷ 1 ∷ []) ∷ []) ((4 ∷ []) ∷ [])
      (tt, (tt, tt)) refl

-- Two HELLO frames in one read: the second is lost.
recv_frames-drops_example :
    recv_frames ((encode greeting ++ encode greeting) ∷ []) ≡ (message greeting, [])
unfolding encode_parts le_bytes
recv_frames-drops_example =
    recv_frames-drops greeting (omega arith) (omega arith) tt (encode greeting) []
