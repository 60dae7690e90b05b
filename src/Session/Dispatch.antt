-- ===== src/Session/Dispatch.antt =====
-- `SenderSession::dispatch` of crates/orbit-transport/src/session.rs against what it promises.
use orbit_transfer.Prelude.{
  ℕ, zero, suc, ◌+◌, ◌-◌, ◌%◌, ◌<◌, ◌≤◌, ◌≡◌, ap, subst, ◌∙◌, Bool, true, false, ◌&&◌, Option, none,
  some, arith, Bool-cases, inl, inr, leb, leb→le,
}
use native.Mathlib.Nat.{mod-eq_of_lt, add-mod_right}
use orbit_transfer.Session.{dispatch, dispatch_from}

-- What a choice of `dispatch` promises: a path that is there, alive and has room; or that no path
-- is both alive and has room.
abbrev pub Chosen : ℕ → (ℕ → Bool) → (ℕ → Bool) → Option ℕ → Type 0
Chosen n alive has_room (some j) = (j < n) × ((alive j && has_room j) ≡ true)
Chosen n alive has_room none = (j : ℕ) → j < n → (alive j && has_room j) ≡ false

module _ (first n : ℕ) (alive has_room : ℕ → Bool) (pos : 0 < n) where
  -- The same, for the paths from an offset on.
  abbrev ChosenFrom : ℕ → ℕ → Option ℕ → Type 0
  ChosenFrom left offset (some j) = (j < n) × ((alive j && has_room j) ≡ true)
  ChosenFrom left offset none =
      (o : ℕ)
      → offset ≤ o
      → o < offset + left
      → (alive ((first + o) % n) && has_room ((first + o) % n)) ≡ false

  dispatch_from-ChosenFrom :
      (left offset : ℕ) → ChosenFrom left offset (dispatch_from left offset first n alive has_room)
  unfolding dispatch_from
  dispatch_from-ChosenFrom zero offset = λ o low high. absurd (omega arith)
  dispatch_from-ChosenFrom (suc left) offset =
      let j = (first + offset) % n in
      elim (Bool-cases (alive j && has_room j)) [
        | inl usable ↦ rw (usable, dispatch_from) (omega arith, usable)
        | inr unusable ↦
            rw (unusable, dispatch_from)
              (later (dispatch_from left (offset + 1) first n alive has_room) unusable
                (dispatch_from-ChosenFrom left (offset + 1)))
      ]
    where
      later :
          (choice : Option ℕ)
          → (alive ((first + offset) % n) && has_room ((first + offset) % n)) ≡ false
          → ChosenFrom left (offset + 1) choice
          → ChosenFrom (suc left) offset choice
      later (some j) unusable c = c
      later none unusable c = λ o low high. elim (Bool-cases (leb o offset)) [
        | inl here ↦
            let same : offset ≡ o = ground arith in
            subst (λ i. (alive ((first + i) % n) && has_room ((first + i) % n)) ≡ false) same
              unusable
        | inr after ↦ c o (ground arith) (omega arith)
      ]

  -- Every path is tried, from `first` on.
  reaches : first < n → (j : ℕ) → j < n → (o : ℕ) × (o < n) × ((first + o) % n ≡ j)
  reaches inside j h = elim (Bool-cases (leb first j)) [
    | inl up ↦
        let le = leb→le first j up in
        (j - first, omega arith, ap (λ i. i % n) (omega arith) ∙ mod-eq_of_lt h)
    | inr around ↦
        let lt : j < first = ground arith in
        (
          j + n - first,
          omega arith,
          ap (λ i. i % n) (omega arith) ∙ add-mod_right j n ∙ mod-eq_of_lt h,
        )
  ]

  -- `dispatch` puts the symbol on a path that is alive and has room, and gives up only when there
  -- is none among the `n` paths, whichever of them it starts with.
  pub dispatch-Chosen : first < n → Chosen n alive has_room (dispatch n first alive has_room)
  unfolding dispatch
  dispatch-Chosen inside =
      go (dispatch_from n 0 first n alive has_room) (dispatch_from-ChosenFrom n 0)
    where
      go : (choice : Option ℕ) → ChosenFrom n 0 choice → Chosen n alive has_room choice
      go (some j) c = c
      go none c = λ j h.
          let (o, low, hit) = reaches inside j h in
          subst (λ i. (alive i && has_room i) ≡ false) hit (c o (omega arith) (omega arith))
