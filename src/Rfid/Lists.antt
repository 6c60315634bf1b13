-- ===== src/Rfid/Lists.antt =====
-- The operations on the list of tags.
use Prim.Native.String.{String}
use text.Mathlib.Text.{◌==◌ as str_eq}
use text.Mathlib.TextEquality.{eq_iff}
use evse_sync_charge.Base.{
  ap, ◌≤◌, ◌≡◌, refl, Bool, true, false, not, ◌&&◌, ◌||◌, List, [], ◌∷◌, ◌++◌, length, arith,
  if◌then◌else◌,
}
use evse_sync_charge.Rfid.{RfidTag, max_rfid_tags}
use evse_sync_charge.Rfid.Tags.{has_tag, rename, toggle, delete, allows}

-- No two tags have the same identifier.
abbrev pub Distinct : List RfidTag → Type 0
Distinct [] = Unit
Distinct (t ∷ ts) = (has_tag t.uid ts ≡ false) × Distinct ts

-- The list has at most ten tags, of different identifiers.
pub record IsTagList (ts : List RfidTag) : Type 0 where
  pub few : length ts ≤ max_rfid_tags
  pub distinct : Distinct ts

pub has-rename :
    (v u name : String) (ts : List RfidTag) → has_tag v (rename u name ts) ≡ has_tag v ts
unfolding has_tag rename
has-rename v u name [] = refl
has-rename v u name (t ∷ ts) = ground (arith, has-rename v u name ts)

pub has-toggle : (v u : String) (ts : List RfidTag) → has_tag v (toggle u ts) ≡ has_tag v ts
unfolding has_tag toggle
has-toggle v u [] = refl
has-toggle v u (t ∷ ts) = ground (arith, has-toggle v u ts)

pub has-delete :
    (v u : String) (ts : List RfidTag) → has_tag v ts ≡ false → has_tag v (delete u ts) ≡ false
unfolding has_tag delete
has-delete v u [] h = refl
has-delete v u (t ∷ ts) h = ground (arith, has-delete v u ts)

pub has-snoc :
    (v : String) (ts : List RfidTag) (t : RfidTag)
    → has_tag v (ts ++ (t ∷ [])) ≡ (has_tag v ts || str_eq t.uid v)
unfolding has_tag
has-snoc v [] t = ground arith
has-snoc v (x ∷ ts) t = ground (arith, has-snoc v ts t)

pub rename-IsTagList :
    (u name : String) (ts : List RfidTag)
    → Distinct ts
    → Distinct (rename u name ts) × (length (rename u name ts) ≡ length ts)
unfolding rename
rename-IsTagList u name [] d = (tt, refl)
rename-IsTagList u name (t ∷ ts) (d, ds) =
    ground (arith, has-rename t.uid u name ts, rename-IsTagList u name ts ds)

pub toggle-IsTagList :
    (u : String) (ts : List RfidTag)
    → Distinct ts
    → Distinct (toggle u ts) × (length (toggle u ts) ≡ length ts)
unfolding toggle
toggle-IsTagList u [] d = (tt, refl)
toggle-IsTagList u (t ∷ ts) (d, ds) =
    ground (arith, has-toggle t.uid u ts, toggle-IsTagList u ts ds)

pub delete-IsTagList :
    (u : String) (ts : List RfidTag)
    → Distinct ts
    → Distinct (delete u ts) × (length (delete u ts) ≤ length ts)
unfolding delete
delete-IsTagList u [] d = (tt, omega arith)
delete-IsTagList u (t ∷ ts) (d, ds) =
    ground (arith, has-delete t.uid u ts, delete-IsTagList u ts ds)

pub snoc-Distinct :
    (ts : List RfidTag) (t : RfidTag)
    → Distinct ts
    → has_tag t.uid ts ≡ false
    → Distinct (ts ++ (t ∷ []))
unfolding has_tag
snoc-Distinct [] t d h = ground arith
snoc-Distinct (x ∷ ts) t (d, ds) h =
    ground
      (arith, snoc-Distinct ts t ds, has-snoc x.uid ts t, eq_iff x.uid t.uid, eq_iff t.uid x.uid)

pub has-same : (u v : String) (ts : List RfidTag) → str_eq u v ≡ true → has_tag u ts ≡ has_tag v ts
has-same u v ts h = ap (λ w. has_tag w ts) ((eq_iff u v).0 h)

pub has-allows : (v : String) (ts : List RfidTag) → has_tag v ts ≡ false → allows v ts ≡ false
unfolding has_tag allows
has-allows v [] h = refl
has-allows v (t ∷ ts) h = ground (arith, has-allows v ts)

pub allows-delete : (u : String) (ts : List RfidTag) → Distinct ts → allows u (delete u ts) ≡ false
unfolding allows delete
allows-delete u [] d = refl
allows-delete u (t ∷ ts) (d, ds) =
    ground (arith, allows-delete u ts ds, has-allows u ts, eq_iff t.uid u)

pub allows-toggle :
    (v u : String) (ts : List RfidTag)
    → allows v (toggle u ts)
      ≡ (if str_eq v u && has_tag u ts then not (allows v ts) else allows v ts)
unfolding allows toggle has_tag
allows-toggle v u [] = ground arith
allows-toggle v u (t ∷ ts) =
    ground (arith, allows-toggle v u ts, eq_iff t.uid u, eq_iff t.uid v, eq_iff v u)

pub allows-snoc :
    (v : String) (ts : List RfidTag) (t : RfidTag)
    → allows v (ts ++ (t ∷ []))
      ≡ (if has_tag v ts then allows v ts else (str_eq t.uid v && t.active))
unfolding allows has_tag
allows-snoc v [] t = ground arith
allows-snoc v (x ∷ ts) t = ground (arith, allows-snoc v ts t)

pub allows-if :
    (v : String) (b : Bool) (xs ys : List RfidTag)
    → allows v (if b then xs else ys) ≡ (if b then allows v xs else allows v ys)
allows-if v true xs ys = refl
allows-if v false xs ys = refl

pub allows-rename :
    (v u name : String) (ts : List RfidTag) → allows v (rename u name ts) ≡ allows v ts
unfolding allows rename
allows-rename v u name [] = refl
allows-rename v u name (t ∷ ts) = ground (arith, allows-rename v u name ts)
