-- ===== src/Decoder/Payload.antt =====
-- `reconstruct` of a complete decoder.
use mathlib.Core.List.{append-nil, append_assoc}
use orbit_transfer.Prelude.{
  le→leb, ℕ, zero, suc, ◌+◌, ◌-◌, ◌≤◌, ◌<◌, ◌≡◌, refl, ap, ◌∙◌, min, true, List, [], ◌++◌, some,
  arith, leb, length, take, All, length-append, length-take, take-append_split,
}
use orbit_transfer.Platform.{Platform}
use orbit_transfer.Simd.Blocks.{IsBlock}
use orbit_transfer.Decoder.Unresolved.{unresolved, unresolved_none, lookup-has}
use orbit_transfer.Decoder.Invariant.Steps.{lookup-IsTrue}
use orbit_transfer.Decoder.Sound.{DecoderInv}
use orbit_transfer.Decoder.{
  FountainDecoder, Resolved, has, is_complete, gather, verify, reconstruct,
}

-- The true inputs from `i` on, `n` of them, one after the other.
abbrev pub joined : (ℕ → List ℕ) → ℕ → ℕ → List ℕ
joined truth zero i = []
joined truth (suc n) i = truth i ++ joined truth n (i + 1)

module _ (p : Platform) (size : ℕ) (truth : ℕ → List ℕ)
    (fits : (i : ℕ) → IsBlock size (truth i)) where
  gather-joined :
      (n i payload_len : ℕ) (resolved : Resolved) (out : List ℕ)
      → All (λ e. e.1 ≡ truth e.0) resolved
      → ((j : ℕ) → j < i + n → has j resolved ≡ true)
      → gather p n i size payload_len resolved out
        ≡ some (out ++ take (payload_len - length out) (joined truth n i))
  unfolding gather
  gather-joined zero i plen resolved out t h =
      ground (arith, append-nil out, nothing (plen - length out))
    where
      nothing : (n : ℕ) → take {A = ℕ} n [] ≡ []
      nothing zero = refl
      nothing (suc n) = refl
  gather-joined (suc n) i plen resolved out t h =
      let (block, found) = lookup-has i resolved (h i (omega arith)) in
      let same : block ≡ truth i = lookup-IsTrue truth i resolved t found in
      let r = plen - length out in
      let part = take (min r size) (truth i) in
      let long : leb (min r size) (length (truth i)) ≡ true = omega (arith, le→leb, (fits i).0) in
      let rest =
        gather-joined n (i + 1) plen resolved (out ++ part) t (λ j lt. h j (omega arith)) in
      let len : length part ≡ min r size =
        omega (arith, length-take (min r size) (truth i), (fits i).0) in
      let left : plen - length (out ++ part) ≡ r - length (truth i) =
        omega (arith, length-append out part, len, (fits i).0) in
      let cut : take r (joined truth (suc n) i)
          ≡ part ++ take (r - length (truth i)) (joined truth n (i + 1)) =
        take-append_split r (truth i) (joined truth n (i + 1))
        ∙ ap (λ m. take (min r m) (truth i) ++ take (r - length (truth i)) (joined truth n (i + 1)))
            (fits i).0 in
      rw (found, same, long) (rest ∙ ap some (rw (left, cut) (append_assoc out part _)))

  -- A complete decoder that tells the truth reconstructs the first `k` true inputs, one after the
  -- other and cut at the length of the payload, and compares their checksum with the expected one.
  pub reconstruct-joined :
      (d : FountainDecoder p)
      → DecoderInv p size truth fits d
      → is_complete p d ≡ true
      → d.k ≤ d.l
      → reconstruct p d
        ≡ some (verify p d.expected_checksum (take d.payload_len (joined truth d.k 0)))
  reconstruct-joined d v done le =
      let none_open : unresolved d.l d.graph.resolved ≡ 0 =
        all_resolved (unfold is_complete in done) in
      let gathered =
        gather-joined d.k 0 d.payload_len d.graph.resolved [] v.graph_inv.solved
          (λ j lt. unresolved_none d.l j d.graph.resolved none_open (omega arith)) in
      complete_case done
        (ap (λ s. gather p d.k 0 s d.payload_len d.graph.resolved []) v.same_size ∙ gathered)
    where
      all_resolved : leb d.l (length d.graph.resolved) ≡ true → unresolved d.l d.graph.resolved ≡ 0
      all_resolved e = ground (arith, v.graph_inv.counted)

      complete_case :
          is_complete p d ≡ true
          → gather p d.k 0 d.symbol_size d.payload_len d.graph.resolved []
            ≡ some (take (d.payload_len - 0) (joined truth d.k 0))
          → reconstruct p d
            ≡ some (verify p d.expected_checksum (take d.payload_len (joined truth d.k 0)))
      complete_case e g =
          let whole : d.payload_len - 0 ≡ d.payload_len = omega arith in
          unfold reconstruct in rw (e, g, whole) refl
