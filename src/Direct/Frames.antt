-- ===== src/Direct/Frames.antt =====
-- Frames that arrive in pieces at `recv_frames` of crates/orbit-transport/src/direct.rs.
use orbit_transfer.Prelude.{
  ℕ, zero, suc, ◌<◌, ◌≤◌, ◌≡◌, refl, sym, subst, ap, ◌∙◌, false, List, [], ◌∷◌, ◌++◌, none, some,
  arith, length, length-append, All, ltb, Bool-cases, inl, inr,
}
use mathlib.Core.List.{append_assoc, append-nil}
use orbit_transfer.Wire.Fields.{IsMessage, TextFits, payload_len}
use orbit_transfer.Wire.Frames.{parse_frame-encode, parse_frame-prefix, length-encode}
use orbit_transfer.Wire.{OrbitMessage, ok, encode, max_frame}
use orbit_transfer.Direct.{
  message, closed, refused, panicked, parsed, recv_loop, recv_frames, recv_each, recv_stream,
}

-- All bytes of a list of pieces.
unfoldable pub joined_pieces : List (List ℕ) → List ℕ
joined_pieces [] = []
joined_pieces (piece ∷ pieces) = piece ++ joined_pieces pieces

abbrev pub IsPiece : List ℕ → Type 0
IsPiece [] = ⊥
IsPiece (b ∷ piece) = Unit {0}

recv_loop-parsed :
    (rest : List (List ℕ)) (buf : List ℕ) (m : OrbitMessage)
    → parsed buf ≡ ok (some m)
    → recv_loop rest buf ≡ (message m, rest)
unfolding recv_loop
recv_loop-parsed [] buf m e = rw (e, recv_loop) refl
recv_loop-parsed ([] ∷ rest) buf m e = rw (e, recv_loop) refl
recv_loop-parsed ((b ∷ piece) ∷ rest) buf m e = rw (e, recv_loop) refl

module _ (m : OrbitMessage) (short : payload_len m ≤ max_frame) where
  parsed-encode :
      IsMessage m → TextFits m → (extra : List ℕ) → parsed (encode m ++ extra) ≡ ok (some m)
  unfolding parsed
  parsed-encode h fits extra =
      let long : ltb (length (encode m ++ extra)) 5 ≡ false =
        ground (arith, length-append (encode m) extra, length-encode m) in
      rw long (ap (λ r. r.0) (parse_frame-encode m short h fits extra))

  parsed-prefix :
      (front back : List ℕ) (x : ℕ) → front ++ (x ∷ back) ≡ encode m → parsed front ≡ ok none
  unfolding parsed
  parsed-prefix front back x e = elim (Bool-cases (ltb (length front) 5)) [
    | inl few ↦ rw few refl
    | inr enough ↦ rw enough (ap (λ r. r.0) (parse_frame-prefix m short front back x e))
  ]

  recv_loop-encode :
      IsMessage m
      → TextFits m
      → (pieces rest : List (List ℕ)) (buf : List ℕ) → All IsPiece pieces
      → buf ++ joined_pieces pieces ≡ encode m
      → recv_loop (pieces ++ rest) buf ≡ (message m, rest)
  unfolding recv_loop joined_pieces
  recv_loop-encode h fits [] rest buf full e =
      recv_loop-parsed rest buf m (
        ap parsed (sym (append-nil buf) ∙ e ∙ sym (append-nil (encode m)))
        ∙ parsed-encode h fits [])
  recv_loop-encode h fits ([] ∷ pieces) rest buf full e = absurd full.0
  recv_loop-encode h fits ((b ∷ piece) ∷ pieces) rest buf full e =
      let waits = parsed-prefix buf (piece ++ joined_pieces pieces) b e in
      rw (waits, recv_loop)
        (recv_loop-encode h fits pieces rest (buf ++ b ∷ piece) full.1
          (append_assoc buf (b ∷ piece) (joined_pieces pieces) ∙ e))

  -- A frame that arrives in any non-empty pieces is received whole, and the reads after its last
  -- piece are left for the next call.
  pub recv_frames-encode :
      IsMessage m
      → TextFits m
      → (pieces rest : List (List ℕ)) → All IsPiece pieces
      → joined_pieces pieces ≡ encode m
      → recv_frames (pieces ++ rest) ≡ (message m, rest)
  unfolding recv_frames
  recv_frames-encode h fits pieces rest full e = recv_loop-encode h fits pieces rest [] full e

  -- Bytes that one read returns after the end of a frame are given up: the call returns the frame,
  -- and what is left for the next call does not depend on them.
  pub recv_frames-drops :
      IsMessage m
      → TextFits m
      → (extra : List ℕ) (rest : List (List ℕ))
      → recv_frames ((encode m ++ extra) ∷ rest) ≡ (message m, rest)
  unfolding recv_frames recv_loop encode parsed
  recv_frames-drops h fits extra rest =
      recv_loop-parsed rest (encode m ++ extra) m (parsed-encode h fits extra)

-- The reads of a stream to which these messages were written, when no read returns bytes of two
-- frames.
abbrev pub Framed : List OrbitMessage → List (List ℕ) → Type 0
Framed [] pieces = pieces ≡ []
Framed (m ∷ ms) pieces =
    (own rest : List (List ℕ)) × (pieces ≡ own ++ rest)
    × All IsPiece own
    × (joined_pieces own ≡ encode m)
    × Framed ms rest

abbrev pub CanFrame : OrbitMessage → Type 0
CanFrame m = IsMessage m × TextFits m × (payload_len m ≤ max_frame)

own_reads :
    (m : OrbitMessage) (own rest : List (List ℕ))
    → joined_pieces own ≡ encode m
    → suc (length rest) ≤ length (own ++ rest)
unfolding joined_pieces
own_reads m [] rest e =
    let long = length-encode m in
    let none_ : 0 ≡ length (encode m) = ap length e in absurd (omega arith)
own_reads m (piece ∷ own) rest e = omega (arith, length-append own rest)

end_of_stream : recv_frames [] ≡ (closed, [])
unfolding recv_frames recv_loop parsed
end_of_stream = refl

recv_each-Framed :
    (calls : ℕ) (ms : List OrbitMessage) (pieces : List (List ℕ))
    → length pieces < calls
    → All CanFrame ms
    → Framed ms pieces
    → recv_each calls pieces ≡ ms
unfolding recv_each
recv_each-Framed zero ms pieces enough fits framed = absurd (omega arith)
recv_each-Framed (suc calls) [] pieces enough fits framed =
    let ended : recv_frames pieces ≡ (closed, []) = ap recv_frames framed ∙ end_of_stream in
    rw (ended, recv_each) refl
recv_each-Framed (suc calls) (m ∷ ms) pieces enough (fit, fits)
      (own, rest, split, full, whole, later) =
    let (h, text, short) = fit in
    let more = own_reads m own rest whole in
    let few : length rest < calls = let total = ap length split in omega arith in
    let one : recv_frames pieces ≡ (message m, rest) =
      ap recv_frames split ∙ recv_frames-encode m short h text own rest full whole in
    subst
      (λ x.
        (elim x.0 [
          | message m' ↦ m' ∷ recv_each calls x.1
          | closed ↦ []
          | refused e ↦ []
          | panicked ↦ []
        ])
        ≡ m ∷ ms)
      (sym one) (ap (λ l. m ∷ l) (recv_each-Framed calls ms rest few fits later))

-- When no read returns bytes of two frames, the task of a direct link reads the messages that were
-- written, all and in their order.
pub recv_stream-Framed :
    (ms : List OrbitMessage) (pieces : List (List ℕ))
    → All CanFrame ms
    → Framed ms pieces
    → recv_stream pieces ≡ ms
unfolding recv_stream
recv_stream-Framed ms pieces fits framed =
    recv_each-Framed (suc (length pieces)) ms pieces (omega arith) fits framed
