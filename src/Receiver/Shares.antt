-- ===== src/Receiver/Shares.antt =====
-- What each path carries of a log of messages, and what arrives when the paths run at their own pace.
use orbit_transfer.Prelude.{
  ℕ, ◌<◌, ◌≡◌, refl, sym, ap, ap₂, subst, ◌∙◌, ◌==◌, Bool, true, false, ◌||◌, List, [], ◌∷◌, ◌++◌,
  map, All, arith, inl, inr, Bool-cases, if◌then◌else◌,
}
use orbit_transfer.Prelude.Sorted.{contains}
use orbit_transfer.Wire.{OrbitMessage, symbol, meta, hello, done, ready, direct}
use orbit_transfer.Sender.{Route, on_relay, on_direct}

unfoldable pub same_route : Route → Route → Bool
same_route (on_relay i) (on_relay j) = i == j
same_route (on_relay i) on_direct = false
same_route on_direct (on_relay j) = false
same_route on_direct on_direct = true

pub same_route_self : (route : Route) → same_route route route ≡ true
unfolding same_route
same_route_self (on_relay i) = ground arith
same_route_self on_direct = refl

pub same_route_eq : (a b : Route) → same_route a b ≡ true → a ≡ b
unfolding same_route
same_route_eq (on_relay i) (on_relay j) h = let same : i ≡ j = ground arith in ap on_relay same
same_route_eq (on_relay i) on_direct h = cc
same_route_eq on_direct (on_relay j) h = cc
same_route_eq on_direct on_direct h = refl

pub later_relay : (j : ℕ) → same_route (on_relay j) (on_relay 0) ≡ false → 0 < j
unfolding same_route
later_relay j h = ground arith

-- The messages of one path, in their order.
unfoldable pub share : Route → List (Route × OrbitMessage) → List OrbitMessage
share route [] = []
share route (e ∷ log) =
    let rest = share route log in if same_route route e.0 then e.1 ∷ rest else rest

-- The id of a symbol.
unfoldable pub esi_of : OrbitMessage → ℕ
esi_of (symbol id esi sealed) = esi
esi_of (meta id filename size symbol_size k checksum) = 0
esi_of (hello id role) = 0
esi_of (done id) = 0
esi_of (ready id) = 0
esi_of (direct id addr) = 0

abbrev pub esis_of : List (Route × OrbitMessage) → List ℕ
esis_of log = map (λ e. esi_of e.1) log

module _ (P : OrbitMessage → Type 0) where
  pub share-All :
      (route : Route) (log : List (Route × OrbitMessage))
      → All (λ e. P e.1) log
      → All P (share route log)
  unfolding share
  share-All route [] h = tt
  share-All route (e ∷ log) h = elim (Bool-cases (same_route route e.0)) [
    | inl here ↦ rw here (h.0, share-All route log h.1)
    | inr other ↦ rw other (share-All route log h.1)
  ]

  -- What holds of each path's messages holds of all.
  pub share-All_each :
      (log : List (Route × OrbitMessage))
      → ((route : Route) → All P (share route log))
      → All (λ e. P e.1) log
  unfolding share
  share-All_each [] h = tt
  share-All_each ((route, m) ∷ log) h = (
    head (share route log) (same_route route route) (same_route_self route) (h route),
    share-All_each log (λ r. tail r (same_route r route) (h r)),
  )
    where
      head : (ms : List OrbitMessage) (b : Bool) → b ≡ true → All P (if b then m ∷ ms else ms) → P m
      head ms true e all = all.0
      head ms false e all = cc

      tail :
          (r : Route) (b : Bool)
          → All P (if b then m ∷ share r log else share r log)
          → All P (share r log)
      tail r true all = all.1
      tail r false all = all

-- The path that an id of the log went, and back.
pub share-contains :
    (i : ℕ) (log : List (Route × OrbitMessage))
    → contains i (esis_of log) ≡ true
    → (route : Route) × (contains i (map esi_of (share route log)) ≡ true)
unfolding contains share
share-contains i [] h = cc
share-contains i ((route, m) ∷ log) h = elim (Bool-cases (esi_of m == i)) [
  | inl here ↦ (route, rw (same_route_self route, here) refl)
  | inr later ↦
      let (r, found) = share-contains i log (ground arith) in (r, go (same_route r route) r found)
]
  where
    go :
        (b : Bool) (r : Route)
        → contains i (map esi_of (share r log)) ≡ true
        → contains i (map esi_of (if b then m ∷ share r log else share r log)) ≡ true
    go true r found = ground arith
    go false r found = found

pub contains-share :
    (i : ℕ) (route : Route) (log : List (Route × OrbitMessage))
    → contains i (map esi_of (share route log)) ≡ true
    → contains i (esis_of log) ≡ true
unfolding contains share
contains-share i route [] h = h
contains-share i route (e ∷ log) h =
    go (same_route route e.0) (λ found. contains-share i route log found) h
  where
    go :
        (b : Bool)
        → (contains i (map esi_of (share route log)) ≡ true → contains i (esis_of log) ≡ true)
        → contains i (map esi_of (if b then e.1 ∷ share route log else share route log)) ≡ true
        → (esi_of e.1 == i) || contains i (esis_of log) ≡ true
    go true later h = elim (Bool-cases (esi_of e.1 == i)) [
      | inl here ↦ rw here refl
      | inr other ↦ let found = later (ground arith) in ground arith
    ]
    go false later h = let found = later h in ground arith

pub share-here :
    (route : Route) (e : Route × OrbitMessage) (log : List (Route × OrbitMessage))
    → same_route route e.0 ≡ true
    → share route (e ∷ log) ≡ e.1 ∷ share route log
unfolding share
share-here route e log h = rw h refl

share-other :
    (route : Route) (e : Route × OrbitMessage) (log : List (Route × OrbitMessage))
    → same_route route e.0 ≡ false
    → share route (e ∷ log) ≡ share route log
unfolding share
share-other route e log h = rw h refl

-- The first message of a path: what came before it, none of it on this path, and what came after.
pub share-first :
    (route : Route) (m : OrbitMessage) (ms : List OrbitMessage) (log : List (Route × OrbitMessage))
    → share route log ≡ m ∷ ms
    → (early : List (Route × OrbitMessage)) × (late : List (Route × OrbitMessage)) × (log
        ≡ early ++ (route, m) ∷ late)
      × (share route (early ++ late) ≡ ms)
      × ((r : Route) → same_route r route ≡ false → share r (early ++ late) ≡ share r log)
unfolding share
share-first route m ms [] h = cc
share-first route m ms ((r0, m0) ∷ log) h = elim (Bool-cases (same_route route r0)) [
  | inl here ↦
      let both : m0 ∷ share route log ≡ m ∷ ms = sym (share-here route (r0, m0) log here) ∙ h in
      let on_it = same_route_eq route r0 here in
      let first : m0 ≡ m = cc in
      let later : share route log ≡ ms = cc in
      (
        [],
        log,
        ap₂ (λ r t. (r, t) ∷ log) (sym on_it) first,
        later,
        λ r differs.
            sym (share-other r (r0, m0) log (subst (λ t. same_route r t ≡ false) on_it differs)),
      )
  | inr other ↦
      let (early, late, split, mine, others) =
        share-first route m ms log (sym (share-other route (r0, m0) log other) ∙ h) in
      (
        (r0, m0) ∷ early,
        late,
        ap (λ l. (r0, m0) ∷ l) split,
        share-other route (r0, m0) (early ++ late) other ∙ mine,
        λ r differs. ap (λ t. if same_route r r0 then m0 ∷ t else t) (others r differs),
      )
]
