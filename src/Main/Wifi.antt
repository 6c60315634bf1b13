-- ===== src/Main/Wifi.antt =====
-- The wait of `setup` for WiFi, and the retries of `loop` where the access point is the fallback.
use evse_sync_charge.Base.{
  ℕ, zero, suc, ◌+◌, ◌≤◌, ◌<◌, ◌≡◌, refl, sym, ◌∙◌, Bool, true, false, not, ◌&&◌, ltb, inl, inr,
  Bool-cases, arith, sub32, if◌then◌else◌,
}

-- The loop over the tries, on fuel: `status k` is whether WiFi is connected at the test before try k,
-- and the result is the number of tries made.
unfoldable pub wait_wifi : ℕ → (ℕ → Bool) → ℕ → ℕ
wait_wifi zero status retry = retry
wait_wifi (suc fuel) status retry =
    let rest = wait_wifi fuel status (retry + 1) in
    if not (status retry) && ltb retry 360 then rest else retry

-- The condition of the loop.
abbrev goes_on : (ℕ → Bool) → ℕ → Bool
goes_on status retry = not (status retry) && ltb retry 360

abbrev Ended : (ℕ → Bool) → ℕ → ℕ → Type 0
Ended status retry r =
    (goes_on status r ≡ false) × (r ≤ 360) × ((k : ℕ) → retry ≤ k → k < r → status k ≡ false)

wait-next :
    (fuel : ℕ) (status : ℕ → Bool) (retry : ℕ)
    → goes_on status retry ≡ true
    → wait_wifi (suc fuel) status retry ≡ wait_wifi fuel status (retry + 1)
unfolding wait_wifi
wait-next fuel status retry e = rw e refl

wait-stop :
    (fuel : ℕ) (status : ℕ → Bool) (retry : ℕ)
    → goes_on status retry ≡ false
    → wait_wifi (suc fuel) status retry ≡ retry
unfolding wait_wifi
wait-stop fuel status retry e = rw e refl

-- What holds of the tries from the next one on holds from this one on.
earlier :
    (status : ℕ → Bool) (retry r : ℕ)
    → goes_on status retry ≡ true
    → Ended status (retry + 1) r
    → Ended status retry r
earlier status retry r e (stops, few, before) = (
  stops,
  few,
  λ (k : ℕ) (l : retry ≤ k) (h : k < r). elim (Bool-cases (ltb retry k)) [
    | inl later ↦ before k (ground arith) h
    | inr now ↦ (let same : retry ≡ k = ground arith in rw (← same) (ground arith))
  ],
)

wait-Ended :
    (fuel : ℕ) (status : ℕ → Bool) (retry : ℕ)
    → retry ≤ 360
    → 361 ≤ fuel + retry
    → Ended status retry (wait_wifi fuel status retry)
wait-Ended zero status retry l h = ground arith
wait-Ended (suc fuel) status retry l h = elim (Bool-cases (goes_on status retry)) [
  | inl e ↦ rw (wait-next fuel status retry e) (
      earlier status retry (wait_wifi fuel status (retry + 1)) e
        (wait-Ended fuel status (retry + 1) (ground arith) (omega arith)))
  | inr e ↦
      rw (wait-stop fuel status retry e)
        (e, l, λ (k : ℕ) (a : retry ≤ k) (b : k < retry). ground arith)
]

wait-same :
    (f g : ℕ) (status : ℕ → Bool) (retry : ℕ)
    → retry ≤ 360
    → 361 ≤ f + retry
    → 361 ≤ g + retry
    → wait_wifi f status retry ≡ wait_wifi g status retry
wait-same zero g status retry l h i = ground arith
wait-same (suc f) zero status retry l h i = ground arith
wait-same (suc f) (suc g) status retry l h i = elim (Bool-cases (goes_on status retry)) [
  | inl e ↦
      wait-next f status retry e
      ∙ wait-same f g status (retry + 1) (ground arith) (omega arith) (omega arith)
      ∙ sym (wait-next g status retry e)
  | inr e ↦ wait-stop f status retry e ∙ sym (wait-stop g status retry e)
]

-- With a fuel of 361 or more, the wait ends where the loop's condition fails, after at most 360 tries;
-- all the tests before have found no connection, and where fewer tries are made the last test has
-- found one. More fuel gives the same number.
pub wait_wifi-ends :
    (fuel : ℕ) (status : ℕ → Bool)
    → let r = wait_wifi (361 + fuel) status 0 in
      (r ≤ 360)
      × ((k : ℕ) → k < r → status k ≡ false)
      × (r < 360 → status r ≡ true)
      × (r ≡ wait_wifi 361 status 0)
wait_wifi-ends fuel status =
    let (stops, few, before) = wait-Ended (361 + fuel) status 0 (omega arith) (omega arith) in
    (
      few,
      λ (k : ℕ) (h : k < wait_wifi (361 + fuel) status 0). before k (omega arith) h,
      λ (h : wait_wifi (361 + fuel) status 0 < 360). ground arith,
      wait-same (361 + fuel) 361 status 0 (omega arith) (omega arith) (omega arith),
    )

-- What a pass does: nothing, a restart of the chip, or a new try to connect, with lastWifiRetry.
pub data Recovery : Type 0 where
  rests restarts : Recovery
  tries : ℕ → Recovery

-- The clock in the test and after it.
unfoldable pub recover_wifi : (fallback connected : Bool) → ℕ → ℕ → ℕ → Recovery
recover_wifi fallback connected now stamped last =
    if not fallback
    then rests
    else if connected
    then restarts
    else if ltb 300000 (sub32 now last)
    then tries stamped
    else rests

-- A pass tries to connect again only in the fallback, without a connection, and more than five minutes
-- after the last try by the wrapping clock; and it restarts the chip only in the fallback, once WiFi
-- is connected.
pub recover_wifi_lem :
    (fallback connected : Bool) (now stamped last : ℕ)
    → let r = recover_wifi fallback connected now stamped last in
      (r ≡ tries stamped → (fallback ≡ true) × (connected ≡ false) × (300000 < sub32 now last))
      × (r ≡ restarts → (fallback ≡ true) × (connected ≡ true))
unfolding recover_wifi
recover_wifi_lem fallback connected now stamped last = ground arith
