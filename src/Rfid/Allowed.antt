-- ===== src/Rfid/Allowed.antt =====
-- The tags over the operations of the reader, and what a scan reports.
use Prim.Native.String.{String}
use text.Mathlib.Text.{◌==◌ as str_eq}
use evse_sync_charge.Base.{
  ◌≤◌, ◌≡◌, Bool, true, false, not, ◌&&◌, List, [], ◌∷◌, ◌++◌, leb, ltb, length, length-append,
  sub32, arith, some, if◌then◌else◌,
}
use evse_sync_charge.Rfid.{RfidTag, Rfid, max_rfid_tags, save_tags}
use evse_sync_charge.Rfid.Tags.{
  has_tag, rename, add_tag, toggle_tag_status, delete_tag, is_uid_allowed,
}
use evse_sync_charge.Rfid.Scan.{ScanReadings, tend_buzzer, process_card, loop}
use evse_sync_charge.Rfid.Lists.{
  IsTagList, rename-IsTagList, toggle-IsTagList, delete-IsTagList, snoc-Distinct, has-same,
  has-allows, allows-delete, allows-toggle, allows-snoc, allows-if, allows-rename,
}

module _ (upper : String → String) where
  -- From a list of at most ten tags of different identifiers, adding, toggling and deleting a tag lead
  -- to such a list, whatever the identifier is and whether or not the preferences take the list.
  pub edits-IsTagList :
      (written : Bool) (uid name : String) (r : Rfid)
      → IsTagList r.tags
      → IsTagList ((add_tag upper written uid name r).1).tags
        × IsTagList (toggle_tag_status upper written uid r).tags
        × IsTagList (delete_tag upper written uid r).tags
  unfolding add_tag toggle_tag_status delete_tag save_tags
  edits-IsTagList written uid name r v =
      let u = upper uid in
      let tag : RfidTag = record { uid = u; name = name; active = true } in
      let one : List RfidTag = tag ∷ [] in
      ground (
        arith,
        rename-IsTagList u name r.tags v.distinct,
        toggle-IsTagList u r.tags v.distinct,
        delete-IsTagList u r.tags v.distinct,
        snoc-Distinct r.tags tag v.distinct,
        length-append r.tags one,
      )

  add_tag-tags :
      (written : Bool) (uid name : String) (r : Rfid)
      → let u = upper uid in
        let tag : RfidTag = record { uid = u; name = name; active = true } in
        ((add_tag upper written uid name r).1).tags ≡ (
          if has_tag u r.tags
          then rename u name r.tags
          else if leb max_rfid_tags (length r.tags)
          then r.tags
          else r.tags ++ (tag ∷ []))
  unfolding add_tag save_tags
  add_tag-tags written uid name r = ground arith

  -- After a tag is added, a card is allowed as follows: a card of the new identifier is allowed if the
  -- identifier was not in the list and there was room, and every other card as before.
  pub add_tag-allows :
      (written : Bool) (uid name card : String) (r : Rfid)
      → is_uid_allowed upper card ((add_tag upper written uid name r).1) ≡ (
          if str_eq (upper uid) (upper card)
            && not (has_tag (upper uid) r.tags)
            && ltb (length r.tags) max_rfid_tags
          then true
          else is_uid_allowed upper card r)
  unfolding is_uid_allowed
  add_tag-allows written uid name card r =
      let u = upper uid in
      let v = upper card in
      let tag : RfidTag = record { uid = u; name = name; active = true } in
      rw (add_tag-tags written uid name r, allows-if, allows-if)
        (ground (
          arith,
          allows-rename v u name r.tags,
          allows-snoc v r.tags tag,
          has-allows v r.tags,
          has-same u v r.tags,
        ))

  -- Toggling a tag flips whether a card of its identifier is allowed, if the list has the tag, and no
  -- other card's.
  pub toggle-allows :
      (written : Bool) (uid card : String) (r : Rfid)
      → is_uid_allowed upper card (toggle_tag_status upper written uid r) ≡ (
          if str_eq (upper card) (upper uid) && has_tag (upper uid) r.tags
          then not (is_uid_allowed upper card r)
          else is_uid_allowed upper card r)
  unfolding toggle_tag_status is_uid_allowed save_tags
  toggle-allows written uid card r = ground (arith, allows-toggle (upper card) (upper uid) r.tags)

  -- With different identifiers in the list, a card whose tag has been deleted is not allowed.
  pub delete-allows :
      (written : Bool) (uid : String) (r : Rfid)
      → IsTagList r.tags
      → is_uid_allowed upper uid (delete_tag upper written uid r) ≡ false
  unfolding delete_tag is_uid_allowed save_tags
  delete-allows written uid r v =
      ground (arith, allows-delete (upper uid) r.tags v.distinct, has-allows (upper uid) r.tags)

  -- A pass of the reader's loop reports a card as authorized only if the reader is enabled and not
  -- learning, 1500 ms or more are gone since the last scan, a card was read whose identifier it is,
  -- and this identifier is allowed.
  pub loop-authorized :
      (s : ScanReadings) (r : Rfid) (uid : String)
      → (loop upper s r).1 ≡ some (uid, true)
      → (r.enabled ≡ true)
        × (r.learning ≡ false)
        × (1500 ≤ sub32 s.now r.last_scan_time)
        × (s.card ≡ some uid)
        × (is_uid_allowed upper uid r ≡ true)
  unfolding loop process_card tend_buzzer is_uid_allowed
  loop-authorized s r uid h = ground arith
