-- ===== src/Decoder.antt =====
-- crates/orbit-fountain/src/decoder.rs: the peeling decoder. `none` is a panic, or draws past
-- `rounds`, or a ripple longer than its fuel.
--
-- A `HashSet` is a list without repetition, the map of resolved inputs an association list, and
-- the reverse index a function, in which a missing key and an empty list are the same thing, as
-- they are to the code (`or_default`, `unwrap_or_default`).
pub mod Unresolved
pub mod Invariant
pub mod Symbols
pub mod Sound
pub mod Payload
pub mod Start
pub mod Progress
pub mod Peeling
use orbit_transfer.Prelude.{
  ℕ, zero, suc, ◌+◌, ◌-◌, min, Bool, true, false, ◌||◌, List, [], ◌∷◌, ◌++◌, Option, none, some,
  leb, ◌==◌, if◌then◌else◌, length, get_elem?, set, take, replicate, ◌>>=◌,
}
use orbit_transfer.Prelude.Sorted.{contains, remove, add}
use orbit_transfer.Platform.{Platform}
use orbit_transfer.Simd.{xor_inplace}
use orbit_transfer.Precode.{s_for, h_for, precode_neighbors, hdpc_neighbors}
use orbit_transfer.Soliton
use orbit_transfer.Soliton.{SolitonSampler, get_neighbors}
use orbit_transfer.Encoder.{EncodedSymbol}

pub data DecoderError : Type 0 where
  checksum_mismatch : (expected got : ℕ) → DecoderError
  incomplete : (resolved total_required : ℕ) → DecoderError

pub record ActiveEquation : Type 0 where
  pub block : List ℕ
  pub neighbors : List ℕ

-- The map of resolved inputs. A key is inserted only where it is absent.
abbrev pub Resolved : Type 0
Resolved = List (ℕ × List ℕ)

unfoldable pub lookup : ℕ → Resolved → Option (List ℕ)
lookup i [] = none
lookup i ((j, b) ∷ m) = if j == i then some b else lookup i m

unfoldable pub has : ℕ → Resolved → Bool
has i [] = false
has i ((j, b) ∷ m) = j == i || has i m

-- The part of the decoder that `add_symbol` changes, but for the received ids.
pub record Graph : Type 0 where
  pub resolved : Resolved
  pub active_equations : List (Option ActiveEquation)
  pub rev : ℕ → List ℕ

pub record FountainDecoder (p : Platform) : Type 0 where
  pub payload_len : ℕ
  pub symbol_size : ℕ
  pub k : ℕ
  pub l : ℕ
  pub expected_checksum : ℕ
  pub sampler : SolitonSampler p
  pub graph : Graph
  pub received_esis : List ℕ

-- `rev.entry(n).or_default().push(slot)` for each neighbour.
unfoldable pub index_slot : ℕ → List ℕ → (ℕ → List ℕ) → ℕ → List ℕ
index_slot slot ns rev i = if contains i ns then rev i ++ slot ∷ [] else rev i

unfoldable pub add_equation : List ℕ → List ℕ → Graph → Graph
add_equation block ns g = record g {
  active_equations = g.active_equations ++ some (record { block = block; neighbors = ns }) ∷ [];
  rev = index_slot (length g.active_equations) ns g.rev;
}

-- `HashSet` from the neighbours of a check, and the check itself.
unfoldable pub collect : List ℕ → List ℕ
unfolding add
collect [] = []
collect (n ∷ ns) = add n (collect ns)

unfoldable pub ldpc_equations : ℕ → ℕ → ℕ → ℕ → ℕ → Graph → Option Graph
unfolding collect add_equation
ldpc_equations zero i k s size g = some g
ldpc_equations (suc left) i k s size g = do
  ns ← precode_neighbors k s i
  ldpc_equations left (i + 1) k s size
      (add_equation (replicate size 0) (add (k + i) (collect ns)) g)

unfoldable pub hdpc_equations : Platform → ℕ → ℕ → ℕ → ℕ → ℕ → ℕ → Graph → Option Graph
unfolding collect add_equation
hdpc_equations p zero i k s h size g = some g
hdpc_equations p (suc left) i k s h size g = do
  ns ← hdpc_neighbors p k s h i
  hdpc_equations p left (i + 1) k s h size
      (add_equation (replicate size 0) (add (k + s + i) (collect ns)) g)

-- `Result<Vec<u8>, DecoderError>`.
pub data Reconstructed : Type 0 where
  ok : List ℕ → Reconstructed
  err : DecoderError → Reconstructed

abbrev pub empty_graph : Graph
empty_graph = record { resolved = []; active_equations = []; rev = λ i. [] }

-- `eq.neighbors.remove`, the exclusive or and the three outcomes, for the equation in `slot`. The
-- result is the graph and what is pushed to the queue.
unfoldable pub settle : Graph → ℕ → List ℕ → List ℕ → Graph × List ℕ
settle g slot block [] = (record g { active_equations = set g.active_equations slot none }, [])
settle g slot block (n ∷ []) =
    if has n g.resolved
    then (
      record g {
        active_equations =
            set g.active_equations slot (some (record { block = block; neighbors = n ∷ [] }));
      },
      [],
    )
    else (
      record g {
        resolved = (n, block) ∷ g.resolved;
        active_equations = set g.active_equations slot none;
      },
      n ∷ [],
    )
settle g slot block (n ∷ m ∷ ns) = (
  record g {
    active_equations =
        set g.active_equations slot (some (record { block = block; neighbors = n ∷ m ∷ ns }));
  },
  [],
)

-- A slot is free, or holds an equation; past the end there is none.
unfoldable pub slot_at : Graph → ℕ → Option ActiveEquation
slot_at g slot = elim (get_elem? g.active_equations slot) [ none ↦ none | some e ↦ e ]

unfoldable pub process_equation : Graph → ℕ → ℕ → List ℕ → ActiveEquation → Option (Graph × List ℕ)
unfolding settle
process_equation g slot idx block eq =
    if contains idx eq.neighbors
    then (xor_inplace eq.block block >>= λ combined.
        some (settle g slot combined (remove idx eq.neighbors)))
    else some (g, [])

unfoldable pub process_slot : Graph → ℕ → ℕ → List ℕ → Option (Graph × List ℕ)
unfolding slot_at process_equation
process_slot g slot idx block = elim (slot_at g slot) [
  | none ↦ some (g, [])
  | some eq ↦ process_equation g slot idx block eq
]

-- `for slot in eq_slots`, with the queue.
unfoldable pub process_slots : Graph → List ℕ → ℕ → List ℕ → List ℕ → Option (Graph × List ℕ)
process_slots g [] idx block queue = some (g, queue)
process_slots g (slot ∷ slots) idx block queue = do
  (g', pushed) ← process_slot g slot idx block
  process_slots g' slots idx block (queue ++ pushed)

-- `rev.remove(&idx)`.
unfoldable pub drop_key : ℕ → (ℕ → List ℕ) → ℕ → List ℕ
drop_key idx rev i = if idx == i then [] else rev i

-- One round of the ripple, for the index at the front of the queue.
unfoldable pub ripple_step : Graph → ℕ → List ℕ → Option (Graph × List ℕ)
unfolding process_slots drop_key lookup
ripple_step g idx queue = do
  block ← lookup idx g.resolved
  process_slots (record g { rev = drop_key idx g.rev }) (g.rev idx) idx block queue

unfoldable pub ripple : ℕ → Graph → List ℕ → Option Graph
ripple fuel g [] = some g
ripple zero g (idx ∷ queue) = none
ripple (suc fuel) g (idx ∷ queue) = do (g', queue') ← ripple_step g idx queue; ripple fuel g' queue'

-- Known neighbours are cancelled out of the data, the others collected.
unfoldable pub cancel : Resolved → List ℕ → List ℕ → List ℕ → Option (List ℕ × List ℕ)
cancel resolved [] block unknown = some (block, unknown)
cancel resolved (n ∷ ns) block unknown = elim (lookup n resolved) [
  | some known ↦ xor_inplace block known >>= λ next. cancel resolved ns next unknown
  | none ↦ cancel resolved ns block (add n unknown)
]

-- The equation that is left: solved, kept, or void; and the first entries of the queue.
unfoldable pub admit : Graph → List ℕ → List ℕ → Graph × List ℕ
unfolding add_equation
admit g block [] = (g, [])
admit g block (n ∷ []) = (record g { resolved = (n, block) ∷ g.resolved }, n ∷ [])
admit g block (n ∷ m ∷ ns) = (add_equation block (n ∷ m ∷ ns) g, [])

module _ (p : Platform) where
  unfoldable pub new : ℕ → ℕ → ℕ → ℕ → Option (FountainDecoder p)
  unfolding ldpc_equations hdpc_equations
  new payload_len size k expected_checksum = do
    let s = s_for k
    let h = h_for k
    with_ldpc ← ldpc_equations s 0 k s size empty_graph
    graph ← hdpc_equations p h 0 k s h size with_ldpc
    some (record {
      payload_len = payload_len;
      symbol_size = size;
      k = k;
      l = k + s + h;
      expected_checksum = expected_checksum;
      sampler = Soliton.new p (k + s + h);
      graph = graph;
      received_esis = [];
    })

  unfoldable pub is_complete : FountainDecoder p → Bool
  is_complete d = leb d.l (length d.graph.resolved)

  -- The body of `add_symbol` on a symbol that is new, with `l + 1` as the ripple's fuel.
  unfoldable pub absorb : FountainDecoder p → List ℕ → List ℕ → Option Graph
  unfolding cancel admit ripple ripple_step
  absorb d block neighbors = do
    (left, unknown) ← cancel d.graph.resolved neighbors block []
    let started = admit d.graph left unknown
    ripple (d.l + 1) started.0 started.1

  -- `add_symbol` on an id that has not been received.
  unfoldable pub add_fresh : FountainDecoder p → EncodedSymbol → Option (FountainDecoder p × Bool)
  unfolding absorb is_complete get_neighbors
  add_fresh d symbol = do
    (degree, neighbors) ← get_neighbors p d.sampler symbol.esi
    graph ← absorb d symbol.block neighbors
    let d' = record d { graph = graph; received_esis = symbol.esi ∷ d.received_esis }
    some (d', is_complete d')

  -- The new state, and whether decoding is complete.
  unfoldable pub add_symbol : FountainDecoder p → EncodedSymbol → Option (FountainDecoder p × Bool)
  unfolding add_fresh is_complete
  add_symbol d symbol =
      if is_complete d || contains symbol.esi d.received_esis
      then some (d, is_complete d)
      else add_fresh d symbol

  -- `for i in 0..k`, from `i` on; `&block[..to_copy]` panics where the block is shorter.
  unfoldable pub gather : ℕ → ℕ → ℕ → ℕ → Resolved → List ℕ → Option (List ℕ)
  gather zero i size payload_len resolved out = some out
  gather (suc left) i size payload_len resolved out = do
    block ← lookup i resolved
    let to_copy = min (payload_len - length out) size
    part ← (if leb to_copy (length block) then some (take to_copy block) else none)
    gather left (i + 1) size payload_len resolved (out ++ part)

  -- The payload that has been gathered, if its checksum is the expected one.
  unfoldable pub verify : ℕ → List ℕ → Reconstructed
  verify expected out =
      if expected == p.xxh3_64 out then ok out else err (checksum_mismatch expected (p.xxh3_64 out))

  unfoldable pub reconstruct : FountainDecoder p → Option Reconstructed
  unfolding is_complete gather verify
  reconstruct d =
      let checked = gather d.k 0 d.symbol_size d.payload_len d.graph.resolved [] >>= λ out.
      some (verify d.expected_checksum out) in
      if is_complete d then checked else some (err (incomplete (length d.graph.resolved) d.l))
