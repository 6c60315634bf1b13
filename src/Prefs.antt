-- ===== src/Prefs.antt =====
-- The key-value store of the ESP32 (class Preferences, a library of the Arduino core) as an interface:
-- what a namespace holds is a value of a type P, which a key reads and a write changes. A value is
-- kept with its type, and a read of another type gives the default.
use Prim.Native.String.{String}
use text.Mathlib.Text.{◌==◌ as str_eq}
use evse_sync_charge.Base.{ℕ, ◌≡◌, refl, ℤ, Bool, Option, none, some, List, [], ◌∷◌, if◌then◌else◌}

-- What putString, putBool, putUShort, putULong, putInt and putFloat write.
pub data Value (F : Type 0) : Type 0 where
  text_value : String → Value F
  flag : Bool → Value F
  ushort ulong : ℕ → Value F
  int : ℤ → Value F
  real : F → Value F

pub record Preferences (F P : Type 0) : Type 0 where
  pub get : String → P → Option (Value F)
  pub put : String → Value F → P → P

-- The documented behaviour of a store whose writes succeed: a key reads what was last written to it.
pub record IsStore {F P : Type 0} (pr : Preferences F P) : Type 0 where
  pub get-put :
      (k j : String) (v : Value F) (p : P)
      → pr.get k (pr.put j v p) ≡ (if str_eq j k then some v else pr.get k p)

module _ {F : Type 0} where
  -- getString, getBool, getUShort, getULong, getInt and getFloat with their defaults.
  abbrev pub text_or : String → Option (Value F) → String
  text_or d (some (text_value s)) = s
  text_or d _ = d

  abbrev pub flag_or : Bool → Option (Value F) → Bool
  flag_or d (some (flag b)) = b
  flag_or d _ = d

  abbrev pub ushort_or : ℕ → Option (Value F) → ℕ
  ushort_or d (some (ushort n)) = n
  ushort_or d _ = d

  abbrev pub ulong_or : ℕ → Option (Value F) → ℕ
  ulong_or d (some (ulong n)) = n
  ulong_or d _ = d

  abbrev pub int_or : ℤ → Option (Value F) → ℤ
  int_or d (some (int z)) = z
  int_or d _ = d

  abbrev pub real_or : F → Option (Value F) → F
  real_or d (some (real x)) = x
  real_or d _ = d

  -- What a key reads after writes, in their order, if it read d before them.
  abbrev pub latest : String → List (String × Value F) → Option (Value F) → Option (Value F)
  latest k [] d = d
  latest k ((j, v) ∷ es) d = latest k es (if str_eq j k then some v else d)

module _ {F P : Type 0} (pr : Preferences F P) where
  -- Writes in a row.
  unfoldable pub put_all : List (String × Value F) → P → P
  put_all [] p = p
  put_all ((j, v) ∷ es) p = put_all es (pr.put j v p)

  pub get-put_all :
      IsStore pr
      → (k : String) (es : List (String × Value F)) (p : P)
      → pr.get k (put_all es p) ≡ latest k es (pr.get k p)
  unfolding put_all
  get-put_all st k [] p = refl
  get-put_all st k ((j, v) ∷ es) p = rw (← st.get-put k j v p) (get-put_all st k es (pr.put j v p))

-- An association list, the newest write first.
module _ {F : Type 0} where
  unfoldable pub lookup : String → List (String × Value F) → Option (Value F)
  lookup k [] = none
  lookup k ((j, v) ∷ es) = if str_eq j k then some v else lookup k es

  abbrev pub table : Preferences F (List (String × Value F))
  table = record { get = lookup; put = λ k v p. (k, v) ∷ p }

  -- The interface can be met.
  pub table-IsStore : IsStore table
  unfolding lookup
  table-IsStore = record { get-put = λ k j v p. refl }
