-- ===== src/Pilot/Debounce.antt =====
-- The classification of the pilot's voltages and the debouncing of the vehicle state.
use evse_sync_charge.Base.{
  ℕ, zero, suc, ◌≤◌, ◌≡◌, refl, ◌∙◌, ap, ◌⊎◌, inl, inr, true, List, [], ◌∷◌, arith,
}
use evse_sync_charge.Types.{VehicleState, same_vehicle}
use evse_sync_charge.Pilot.{Pilot}
use evse_sync_charge.Pilot.Read.{debounce}

same_vehicle→eq : (v w : VehicleState) → same_vehicle v w ≡ true → v ≡ w
same_vehicle→eq v w h = ground arith

same_refl : (v : VehicleState) → same_vehicle v v ≡ true
same_refl v = ground arith

-- A sequence of detected states.
unfoldable pub debounce_all : {F : Type 0} → List VehicleState → Pilot F → Pilot F
debounce_all [] p = p
debounce_all (v ∷ vs) p = debounce_all vs (debounce v p)

-- The same state four times in a row.
pub data HasRun (v : VehicleState) : List VehicleState → Type 0 where
  here : (vs : List VehicleState) → HasRun v (v ∷ v ∷ v ∷ v ∷ vs)
  later : (w : VehicleState) (vs : List VehicleState) → HasRun v vs → HasRun v (w ∷ vs)

-- `n` copies of a state before a list.
abbrev pub copies : ℕ → VehicleState → List VehicleState → List VehicleState
copies zero v vs = vs
copies (suc n) v vs = v ∷ copies n v vs

copies-step :
    (n : ℕ) (v : VehicleState) (vs : List VehicleState) → copies n v (v ∷ vs) ≡ v ∷ copies n v vs
copies-step zero v vs = refl
copies-step (suc n) v vs = ap (λ r. v ∷ r) (copies-step n v vs)

HasRun-copies :
    (n : ℕ) {v : VehicleState} (w : VehicleState) {vs : List VehicleState}
    → HasRun v vs
    → HasRun v (copies n w vs)
HasRun-copies zero w r = r
HasRun-copies (suc n) w r = later w _ (HasRun-copies n w r)

HasRun-enough :
    (n : ℕ) (v : VehicleState) (vs : List VehicleState) → 4 ≤ n → HasRun v (copies n v vs)
HasRun-enough (suc (suc (suc (suc n)))) v vs h = here (copies n v vs)
HasRun-enough (suc (suc (suc zero))) v vs h = absurd (omega arith)
HasRun-enough (suc (suc zero)) v vs h = absurd (omega arith)
HasRun-enough (suc zero) v vs h = absurd (omega arith)
HasRun-enough zero v vs h = absurd (omega arith)

module _ {F : Type 0} where
  debounce-cases :
      (v : VehicleState) (p : Pilot F)
      → let p' = debounce v p in
        (p'.candidate_state ≡ v)
        × (((v ≡ p.candidate_state) × (p'.stability_counter ≡ suc p.stability_counter))
            ⊎ (p'.stability_counter ≡ 0))
        × ((p'.last_vehicle_state ≡ p.last_vehicle_state)
            ⊎ ((p'.last_vehicle_state ≡ v) × (3 ≤ p'.stability_counter)))
  unfolding debounce
  debounce-cases v p = ground (arith, same_vehicle→eq v p.candidate_state)

  -- What the counter and the candidate record of the readings before a list.
  abbrev pub history : Pilot F → List VehicleState → List VehicleState
  history p vs = copies (suc p.stability_counter) p.candidate_state vs

  history-debounce :
      (v : VehicleState) (vs : List VehicleState) (p : Pilot F) {w : VehicleState}
      → HasRun w (history (debounce v p) vs)
      → HasRun w (history p (v ∷ vs))
  history-debounce v vs p {w} r = go (debounce-cases v p).1
    where
      as_copies : HasRun w (copies (suc (debounce v p).stability_counter) v vs)
      as_copies = rw (debounce-cases v p).0 at r

      go :
          ((v ≡ p.candidate_state) × ((debounce v p).stability_counter ≡ suc p.stability_counter))
            ⊎ ((debounce v p).stability_counter ≡ 0)
          → HasRun w (history p (v ∷ vs))
      go (inl (same, counted)) =
          let r' : HasRun w (copies (suc (suc p.stability_counter)) v vs) =
            rw counted at as_copies in
          let moved = copies-step (suc p.stability_counter) v vs in rw (← same, moved) r'
      go (inr zeroed) =
          HasRun-copies (suc p.stability_counter) p.candidate_state (rw zeroed at as_copies)

  -- Whatever sequence of states is detected, the vehicle state after it is the one before it or a
  -- state that was detected four times in a row, counting the detections before the sequence which
  -- the pilot's candidate and counter record.
  pub debounce_all-HasRun :
      (vs : List VehicleState) (p : Pilot F)
      → let r = debounce_all vs p in
        (r.last_vehicle_state ≡ p.last_vehicle_state) ⊎ HasRun r.last_vehicle_state (history p vs)
  unfolding debounce_all
  debounce_all-HasRun [] p = inl refl
  debounce_all-HasRun (v ∷ vs) p = go (debounce_all-HasRun vs (debounce v p)) (debounce-cases v p).2
    where
      p' : Pilot F
      p' = debounce v p

      last : VehicleState
      last = (debounce_all vs p').last_vehicle_state

      committed :
          last ≡ p'.last_vehicle_state
          → p'.last_vehicle_state ≡ v
          → 3 ≤ p'.stability_counter
          → HasRun last (history p' vs)
      committed kept new enough =
          rw (kept, new, (debounce-cases v p).0)
            (HasRun-enough (suc p'.stability_counter) v vs (omega arith))

      go :
          (last ≡ p'.last_vehicle_state) ⊎ HasRun last (history p' vs)
          → (p'.last_vehicle_state ≡ p.last_vehicle_state)
            ⊎ ((p'.last_vehicle_state ≡ v) × (3 ≤ p'.stability_counter))
          → (last ≡ p.last_vehicle_state) ⊎ HasRun last (history p (v ∷ vs))
      go (inr run) _ = inr (history-debounce v vs p run)
      go (inl kept) (inl same) = inl (kept ∙ same)
      go (inl kept) (inr (new, enough)) = inr (history-debounce v vs p (committed kept new enough))

  debounce-again :
      (v : VehicleState) (p : Pilot F)
      → p.candidate_state ≡ v
      → let p' = debounce v p in
        (p'.candidate_state ≡ v)
        × (p'.stability_counter ≡ suc p.stability_counter)
        × (2 ≤ p.stability_counter → p'.last_vehicle_state ≡ v)
  unfolding debounce
  debounce-again v p e = ground (arith, same_vehicle→eq v p.last_vehicle_state, same_refl v)

  -- Four detections of one state in a row commit it, from any state of the pilot.
  pub debounce_four :
      (v : VehicleState) (p : Pilot F)
      → (debounce_all (v ∷ v ∷ v ∷ v ∷ []) p).last_vehicle_state ≡ v
  unfolding debounce_all
  debounce_four v p =
      let p₁ = debounce v p in
      let (c₂, n₂, l₂) = debounce-again v p₁ (debounce-cases v p).0 in
      let (c₃, n₃, l₃) = debounce-again v (debounce v p₁) c₂ in
      let (c₄, n₄, l₄) = debounce-again v (debounce v (debounce v p₁)) c₃ in l₄ (omega arith)
