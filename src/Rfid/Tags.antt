-- ===== src/Rfid/Tags.antt =====
-- The list of tags: adding, toggling, deleting, and the test of a card.
use Prim.Native.String.{String}
use text.Mathlib.Text.{◌==◌ as str_eq}
use evse_sync_charge.Base.{Bool, true, false, not, List, [], ◌∷◌, ◌++◌, leb, length, if◌then◌else◌}
use evse_sync_charge.Rfid.{RfidTag, Rfid, max_rfid_tags, save_tags}

-- The loops below act on the first tag with the identifier.
unfoldable pub has_tag : String → List RfidTag → Bool
has_tag uid [] = false
has_tag uid (t ∷ ts) = if str_eq t.uid uid then true else has_tag uid ts

unfoldable pub rename : String → String → List RfidTag → List RfidTag
rename uid name [] = []
rename uid name (t ∷ ts) =
    if str_eq t.uid uid then record t { name = name } ∷ ts else t ∷ rename uid name ts

unfoldable pub toggle : String → List RfidTag → List RfidTag
toggle uid [] = []
toggle uid (t ∷ ts) =
    if str_eq t.uid uid then record t { active = not t.active } ∷ ts else t ∷ toggle uid ts

unfoldable pub delete : String → List RfidTag → List RfidTag
delete uid [] = []
delete uid (t ∷ ts) = if str_eq t.uid uid then ts else t ∷ delete uid ts

unfoldable pub allows : String → List RfidTag → Bool
allows uid [] = false
allows uid (t ∷ ts) = if str_eq t.uid uid then t.active else allows uid ts

module _ (upper : String → String) where
  unfoldable pub add_tag : Bool → String → String → Rfid → Bool × Rfid
  unfolding save_tags has_tag rename
  add_tag written uid name r =
      let u = upper uid in
      if has_tag u r.tags
      then (true, save_tags written (record r { tags = rename u name r.tags }))
      else if leb max_rfid_tags (length r.tags)
      then (false, r)
      else (let tag : RfidTag = record { uid = u; name = name; active = true } in
          (true, save_tags written (record r { tags = r.tags ++ (tag ∷ []) })))

  unfoldable pub toggle_tag_status : Bool → String → Rfid → Rfid
  unfolding save_tags has_tag toggle
  toggle_tag_status written uid r =
      let u = upper uid in
      if has_tag u r.tags then save_tags written (record r { tags = toggle u r.tags }) else r

  unfoldable pub delete_tag : Bool → String → Rfid → Rfid
  unfolding save_tags has_tag delete
  delete_tag written uid r =
      let u = upper uid in
      if has_tag u r.tags then save_tags written (record r { tags = delete u r.tags }) else r

  unfoldable pub is_uid_allowed : String → Rfid → Bool
  unfolding allows
  is_uid_allowed uid r = allows (upper uid) r.tags
