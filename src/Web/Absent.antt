-- ===== src/Web/Absent.antt =====
-- The parts of `handleSaveConfig` that a request leaves alone, and the arguments of a form that is
-- sent.
use Prim.Native.String.{String}
use evse_sync_charge.Base.{ℤ, ◌≡◌, Bool, true, false, ◌||◌, arith}
use evse_sync_charge.Float.{Float}
use evse_sync_charge.Config.{AppConfig}
use evse_sync_charge.Web.{Request, has_arg, arg}
use evse_sync_charge.Web.Save.{
  save_charging, save_mqtt, save_ocpp, save_rcm, save_user, save_wifi, changed,
}
use evse_sync_charge.Web.Forms.{Page, shows_name, enables, submission}

-- With the switch off, the fields are left out.
pub has-off :
    (admits : String → String → Bool) (p : Page) (entered : String → String)
    → enables p entered ≡ false
    → (k : String) → has_arg (submission admits p entered) k ≡ shows_name k p.always
unfolding has_arg submission
has-off admits p entered e k = ground arith

-- With the switch on, or without one, every control is sent.
pub has-on :
    (admits : String → String → Bool) (p : Page) (entered : String → String)
    → enables p entered ≡ true
    → (k : String)
    → has_arg (submission admits p entered) k ≡ (shows_name k p.always || shows_name k p.fields)
unfolding has_arg submission
has-on admits p entered e k = ground arith

-- An argument that is sent has the value that was entered.
pub arg_entered :
    (admits : String → String → Bool) (p : Page) (entered : String → String) (k : String)
    → has_arg (submission admits p entered) k ≡ true
    → arg (submission admits p entered) k ≡ entered k
unfolding has_arg arg submission
arg_entered admits p entered k h = ground arith

-- A control of the fields is missing where the switch is off.
pub arg_off :
    (admits : String → String → Bool) (p : Page) (entered : String → String) (k : String)
    → enables p entered ≡ false
    → shows_name k p.always ≡ false
    → arg (submission admits p entered) k ≡ ""
unfolding arg submission
arg_off admits p entered k e h = ground arith

-- Which of the six parts of the form a request has.
pub record Parts (q : Request) (charging mqtt ocpp rcm user wifi : Bool) : Type 0 where
  pub maxcur : has_arg q "maxcur" ≡ charging
  pub mqhost : has_arg q "mqhost" ≡ mqtt
  pub ohost : has_arg q "ohost" ≡ ocpp
  pub rcmen : has_arg q "rcmen" ≡ rcm
  pub wuser : has_arg q "wuser" ≡ user
  pub ssid : has_arg q "ssid" ≡ wifi

-- The parts that a form sends, by the names of its controls.
pub off-Parts :
    (admits : String → String → Bool) (p : Page) (entered : String → String)
    → enables p entered ≡ false
    → let sent : String → Bool = λ (k : String). shows_name k p.always in
      Parts
        (submission admits p entered)
        (sent "maxcur")
        (sent "mqhost")
        (sent "ohost")
        (sent "rcmen")
        (sent "wuser")
        (sent "ssid")
off-Parts admits p entered e =
    let sent = has-off admits p entered e in
    record {
      maxcur = sent "maxcur";
      mqhost = sent "mqhost";
      ohost = sent "ohost";
      rcmen = sent "rcmen";
      wuser = sent "wuser";
      ssid = sent "ssid";
    }

pub on-Parts :
    (admits : String → String → Bool) (p : Page) (entered : String → String)
    → enables p entered ≡ true
    → let sent : String → Bool = λ (k : String). shows_name k p.always || shows_name k p.fields in
      Parts
        (submission admits p entered)
        (sent "maxcur")
        (sent "mqhost")
        (sent "ohost")
        (sent "rcmen")
        (sent "wuser")
        (sent "ssid")
on-Parts admits p entered e =
    let sent = has-on admits p entered e in
    record {
      maxcur = sent "maxcur";
      mqhost = sent "mqhost";
      ohost = sent "ohost";
      rcmen = sent "rcmen";
      wuser = sent "wuser";
      ssid = sent "ssid";
    }

module _ {F : Type 0} where
  rcm-absent : (q : Request) (c : AppConfig F) → has_arg q "rcmen" ≡ false → save_rcm q c ≡ c
  unfolding save_rcm
  rcm-absent q c h = ground arith

  user-absent : (q : Request) (c : AppConfig F) → has_arg q "wuser" ≡ false → save_user q c ≡ c
  unfolding save_user
  user-absent q c h = ground arith

  wifi-absent : (q : Request) (c : AppConfig F) → has_arg q "ssid" ≡ false → save_wifi q c ≡ c
  unfolding save_wifi
  wifi-absent q c h = ground arith

  mqtt-absent :
      (to_int : String → ℤ) (q : Request) (c : AppConfig F)
      → has_arg q "mqhost" ≡ false
      → save_mqtt to_int q c ≡ c
  unfolding save_mqtt
  mqtt-absent to_int q c h = ground arith

  ocpp-absent :
      (to_int : String → ℤ) (q : Request) (c : AppConfig F)
      → has_arg q "ohost" ≡ false
      → save_ocpp to_int q c ≡ c
  unfolding save_ocpp
  ocpp-absent to_int q c h = ground arith

module _ {F : Type 0} ⦃fl : Float F⦄ (to_float : String → F) (to_int : String → ℤ) where
  charging-absent :
      (q : Request) (c : AppConfig F)
      → has_arg q "maxcur" ≡ false
      → save_charging to_float to_int q c ≡ c
  unfolding save_charging
  charging-absent q c h = ground arith

  module _ (q : Request) (c : AppConfig F) where
    pub changed-none : Parts q false false false false false false → changed to_float to_int q c ≡ c
    unfolding changed
    changed-none p = simp (
      charging-absent q c p.maxcur,
      mqtt-absent to_int q c p.mqhost,
      ocpp-absent to_int q c p.ohost,
      rcm-absent q c p.rcmen,
      user-absent q c p.wuser,
      wifi-absent q c p.ssid,
    )

    pub changed-mqtt :
        Parts q false true false false false false
        → changed to_float to_int q c ≡ save_mqtt to_int q c
    unfolding changed
    changed-mqtt p = simp (
      charging-absent q c p.maxcur,
      ocpp-absent to_int q _ p.ohost,
      rcm-absent q _ p.rcmen,
      user-absent q _ p.wuser,
      wifi-absent q _ p.ssid,
    )

    pub changed-ocpp :
        Parts q false false true false false false
        → changed to_float to_int q c ≡ save_ocpp to_int q c
    unfolding changed
    changed-ocpp p = simp (
      charging-absent q c p.maxcur,
      mqtt-absent to_int q c p.mqhost,
      rcm-absent q _ p.rcmen,
      user-absent q _ p.wuser,
      wifi-absent q _ p.ssid,
    )

    pub changed-wifi :
        Parts q false false false false false true → changed to_float to_int q c ≡ save_wifi q c
    unfolding changed
    changed-wifi p = simp (
      charging-absent q c p.maxcur,
      mqtt-absent to_int q c p.mqhost,
      ocpp-absent to_int q c p.ohost,
      rcm-absent q c p.rcmen,
      user-absent q c p.wuser,
    )

    pub changed-rcm :
        Parts q false false false true false false → changed to_float to_int q c ≡ save_rcm q c
    unfolding changed
    changed-rcm p = simp (
      charging-absent q c p.maxcur,
      mqtt-absent to_int q c p.mqhost,
      ocpp-absent to_int q c p.ohost,
      user-absent q _ p.wuser,
      wifi-absent q _ p.ssid,
    )

    pub changed-user :
        Parts q false false false false true false → changed to_float to_int q c ≡ save_user q c
    unfolding changed
    changed-user p = simp (
      charging-absent q c p.maxcur,
      mqtt-absent to_int q c p.mqhost,
      ocpp-absent to_int q c p.ohost,
      rcm-absent q c p.rcmen,
      wifi-absent q _ p.ssid,
    )
