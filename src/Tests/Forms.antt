-- ===== src/Tests/Forms.antt =====
-- The forms of the configuration pages as they are sent.
use Prim.Native.String.{String, [], ◌∷◌, count}
use Prim.Native.Char.{Char}
use text.Mathlib.TextLemmas.{length-cons}
use text.Mathlib.Text.{◌==◌ as str_eq}
use evse_sync_charge.Base.{
  ℕ, zero, suc, ℤ, pos, negsuc, ◌≡◌, refl, ap, ◌∙◌, Bool, true, false, none, if◌then◌else◌, arith,
}
use evse_sync_charge.Float.Milli.{Milli, milli_float}
use evse_sync_charge.Config
use evse_sync_charge.Config.{AppConfig}
use evse_sync_charge.Web.Save.{led_settings, save_telnet, changed}
use evse_sync_charge.Web.Forms.{
  Page, submission, as_shown, mqtt_page, ocpp_page, telnet_page, wifi_page, led_page, rcm_page,
  auth_page,
}
use evse_sync_charge.Web.Sent.{switched_off, IsPrinted, IsPlain, is_plain, pages_resent}
use evse_sync_charge.Web.Erased.{erased, off_erases}
use evse_sync_charge.Tests.Network.{as_amps, as_int, as_text}
use evse_sync_charge.Tests.Pages.{site}

-- A value between single quotes ends at the first one in it.
cut_at_quote : String → String
cut_at_quote [] = []
cut_at_quote (c ∷ s) = let rest = cut_at_quote s in if str_eq (c ∷ []) "'" then [] else c ∷ rest

plain_shown : (s : String) → is_plain s ≡ true → cut_at_quote s ≡ s
unfolding cut_at_quote
plain_shown [] h = refl
plain_shown (c ∷ s) h = ground (arith, plain_shown s)

abbrev config : AppConfig Milli
config = record Config.new { mqtt_enabled = true; mqtt_host = "broker"; ocpp_enabled = true }

abbrev anyone : String → String → Bool
anyone u p = true

-- Every switch is set to Disabled, and the other controls hold the same text.
abbrev disabling : String → String
disabling k = if str_eq k "mqhost" then "elsewhere" else "0"

switched_off_example :
    (changed as_amps as_int
        (submission anyone (mqtt_page cut_at_quote as_text config) disabling)
        config
      ≡ config)
    × (changed as_amps as_int
          (submission anyone (ocpp_page cut_at_quote as_text (λ (z : ℤ). "1") config) disabling)
          config
        ≡ config)
switched_off_example =
    switched_off as_amps as_int as_text anyone disabling cut_at_quote (λ (z : ℤ). "1") config refl
      refl

abbrev one : Char
one = "1"

abbrev minus : Char
minus = "-"

-- Numbers as tallies, with a minus sign for the negative ones.
tally : ℕ → String
tally zero = []
tally (suc n) = one ∷ tally n

signed_tally : ℤ → String
signed_tally (pos n) = tally n
signed_tally (negsuc n) = minus ∷ tally n

untally : String → ℤ
untally [] = pos 0
untally (c ∷ s) = if str_eq (c ∷ []) "-" then negsuc (count s) else pos (suc (count s))

count-tally : (n : ℕ) → count (tally n) ≡ n
unfolding tally
count-tally zero = refl
count-tally (suc n) = length-cons one (tally n) ∙ ap (λ m. suc m) (count-tally n)

tally_read : (n : ℕ) → untally (tally n) ≡ pos n
unfolding tally untally
tally_read zero = refl
tally_read (suc n) = ap (λ m. pos (suc m)) (count-tally n)

signed_read : (z : ℤ) → untally (signed_tally z) ≡ z
unfolding signed_tally untally
signed_read (pos n) = tally_read n
signed_read (negsuc n) = ap (λ m. negsuc m) (count-tally n)

tally-IsPrinted : IsPrinted untally tally signed_tally
tally-IsPrinted = record { nat_read = λ n h. tally_read n; int_read = signed_read }

config-IsPlain : IsPlain config
unfolding Config.new
config-IsPlain = record {
  mqtt_host = refl;
  mqtt_user = refl;
  mqtt_pass = refl;
  ocpp_host = refl;
  ocpp_url = refl;
  ocpp_auth_key = refl;
  www_user = refl;
  www_pass = refl;
}

pages_resent_example :
    let resent : Page → AppConfig Milli =
      λ (p : Page). changed as_amps untally (submission anyone p (as_shown p)) config in
    (resent (mqtt_page cut_at_quote tally config) ≡ config)
    × (resent (ocpp_page cut_at_quote tally signed_tally config) ≡ config)
    × (resent (rcm_page config) ≡ config)
    × (resent (auth_page cut_at_quote config) ≡ config)
unfolding Config.new
pages_resent_example =
    pages_resent as_amps untally cut_at_quote plain_shown tally signed_tally tally-IsPrinted anyone
      config config-IsPlain refl refl (omega arith) (omega arith) (omega arith)

abbrev zero_read : String → ℤ
zero_read s = pos 0

off_erases_example :
    let t =
      (save_telnet zero_read
        (submission anyone (telnet_page as_text site.telnet) disabling)
        site).telnet in
    let c =
      changed as_amps zero_read
        (submission anyone (wifi_page cut_at_quote none site.config) disabling)
        site.config in
    (led_settings zero_read (submission anyone (led_page as_text site.led.config) disabling)
      ≡ erased)
    × ((t.enabled ≡ false) × (t.port ≡ 0))
    × ((c.use_static ≡ false) × (c.static_ip ≡ "") × (c.static_gw ≡ "") × (c.static_sn ≡ ""))
off_erases_example =
    off_erases as_amps zero_read as_text anyone disabling refl cut_at_quote site.led.config none
      site refl refl refl
