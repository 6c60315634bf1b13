-- ===== src/Pilot/Peak.antt =====
-- The scan of the samples.
use evse_sync_charge.Base.{ℕ, ◌+◌, ◌≤◌, ◌≡◌, List, [], ◌∷◌, arith, All, length}
use evse_sync_charge.Pilot.Read.{Peaks, see, scan_frame, scan}

-- A bound from both sides.
abbrev pub IsBetween : Peaks → ℕ → Type 0
IsBetween k x = (x ≤ k.high) × (k.low ≤ x)

abbrev pub total : List (List ℕ) → ℕ
total [] = 0
total (frame ∷ frames) = length frame + total frames

-- One pair of peaks spans another.
abbrev Spans : Peaks → Peaks → Type 0
Spans k l = (l.high ≤ k.high) × (k.low ≤ l.low)

scan_frame-Spans : (xs : List ℕ) (k : Peaks) → Spans (scan_frame xs k) k
unfolding scan_frame
scan_frame-Spans [] k = omega arith
scan_frame-Spans (x ∷ xs) k = ground (arith, scan_frame-Spans xs (see x k))

scan-Spans : (frames : List (List ℕ)) (k : Peaks) → Spans (scan frames k) k
unfolding scan
scan-Spans [] k = omega arith
scan-Spans (xs ∷ frames) k =
    omega (arith, scan-Spans frames (scan_frame xs k), scan_frame-Spans xs k)

scan_frame-IsBetween : (xs : List ℕ) (k : Peaks) → All (IsBetween (scan_frame xs k)) xs
unfolding scan_frame
scan_frame-IsBetween [] k = tt
scan_frame-IsBetween (x ∷ xs) k =
    (ground (arith, scan_frame-Spans xs (see x k)), scan_frame-IsBetween xs (see x k))

widen : (xs : List ℕ) (k l : Peaks) → Spans k l → All (IsBetween l) xs → All (IsBetween k) xs
widen [] k l s h = tt
widen (x ∷ xs) k l s (h, hs) = (omega arith, widen xs k l s hs)

scan_frame-count : (xs : List ℕ) (k : Peaks) → (scan_frame xs k).count ≡ k.count + length xs
unfolding scan_frame
scan_frame-count [] k = omega arith
scan_frame-count (x ∷ xs) k = omega (arith, scan_frame-count xs (see x k))

-- The scan of any frames from any start counts every sample, and its peaks span every sample and the
-- peaks that it started with.
pub scan-IsBetween :
    (frames : List (List ℕ)) (k : Peaks)
    → let r = scan frames k in
      All (All (IsBetween r)) frames
      × (r.count ≡ k.count + total frames)
      × (k.high ≤ r.high)
      × (r.low ≤ k.low)
unfolding scan
scan-IsBetween [] k = (tt, omega arith, omega arith, omega arith)
scan-IsBetween (xs ∷ frames) k =
    let l = scan_frame xs k in
    let (rest, counted, up, down) = scan-IsBetween frames l in
    let first = widen xs (scan frames l) l (up, down) (scan_frame-IsBetween xs k) in
    (
      (first, rest),
      omega (arith, scan_frame-count xs k),
      omega (arith, scan_frame-Spans xs k),
      omega (arith, scan_frame-Spans xs k),
    )
