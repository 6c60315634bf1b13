-- ===== src/Telnet/Packets.antt =====
-- The bytes of a connection, split into packets.
use evse_sync_charge.Base.{
  ℕ, ◌≡◌, refl, sym, ap, ◌∙◌, true, false, List, [], ◌∷◌, ◌++◌, inl, inr, Bool-cases,
}
use evse_sync_charge.Telnet.{Telnet}
use evse_sync_charge.Telnet.Input.{Credentials, handle_client_input, take_byte}

-- A stopped client delivers nothing.
input-stopped :
    (k : Credentials) (cs : List ℕ) (t : Telnet)
    → t.connected ≡ false
    → handle_client_input k cs t ≡ t
unfolding handle_client_input
input-stopped k [] t h = refl
input-stopped k (c ∷ cs) t h = rw h refl

input-live :
    (k : Credentials) (c : ℕ) (cs : List ℕ) (t : Telnet)
    → t.connected ≡ true
    → handle_client_input k (c ∷ cs) t ≡ handle_client_input k cs (take_byte k c t)
unfolding handle_client_input
input-live k c cs t h = rw h refl

-- Passes of handleClientInput over packets, one after another.
unfoldable pub handle_packets : Credentials → List (List ℕ) → Telnet → Telnet
handle_packets k [] t = t
handle_packets k (p ∷ ps) t = handle_packets k ps (handle_client_input k p t)

unfoldable pub joined : List (List ℕ) → List ℕ
joined [] = []
joined (p ∷ ps) = p ++ joined ps

input-append :
    (k : Credentials) (xs ys : List ℕ) (t : Telnet)
    → handle_client_input k (xs ++ ys) t ≡ handle_client_input k ys (handle_client_input k xs t)
unfolding handle_client_input
input-append k [] ys t = refl
input-append k (c ∷ cs) ys t = elim (Bool-cases t.connected) [
  | inl e ↦
      input-live k c (cs ++ ys) t e
      ∙ input-append k cs ys (take_byte k c t)
      ∙ ap (handle_client_input k ys) (sym (input-live k c cs t e))
  | inr e ↦
      input-stopped k (c ∷ (cs ++ ys)) t e
      ∙ sym (input-stopped k ys t e)
      ∙ ap (handle_client_input k ys) (sym (input-stopped k (c ∷ cs) t e))
]

-- However the bytes of a connection are split into packets, also in the middle of a line or of a
-- command sequence, the passes over the packets in their order do what one pass over all the bytes
-- does.
pub packets-joined :
    (k : Credentials) (ps : List (List ℕ)) (t : Telnet)
    → handle_packets k ps t ≡ handle_client_input k (joined ps) t
unfolding handle_packets joined handle_client_input
packets-joined k [] t = refl
packets-joined k (p ∷ ps) t =
    packets-joined k ps (handle_client_input k p t) ∙ sym (input-append k p (joined ps) t)
