-- ===== src/Sip/Calls/Keys/Midcall.antt =====
-- The dialogs stand under their own Call-IDs, whatever hold, resume and transfer do.
use dee_lip.Prelude.{
  ℕ, ◌≡◌, Bool, Option, none, some, Option-cases, Bool-cases, inl, inr, List, find, All-remove,
}
use dee_lip.Sip.Dialog.{Dialog, Handle}
use dee_lip.Sip.Calls.{State, World}
use dee_lip.Sip.Calls.Refresh.{is_confirmed}
use dee_lip.Sip.Calls.Keys.{WellKeyed, IsKeyed, put-WellKeyed, found-IsKeyed}
use dee_lip.Sip.Calls.Midcall.{
  send_reinvite, with_media, referred, blind_transfer, attended_transfer, consulted, redirect_call,
}

media-WellKeyed :
    (w : World) (id : List ℕ) (hold : Bool) (offer : Handle → List ℕ) (d : Dialog) (s : State)
    → d.call_id ≡ id
    → WellKeyed s
    → (o : Option Handle) → WellKeyed (with_media w id hold offer d o s).0
media-WellKeyed w id hold offer d s e k none = k
media-WellKeyed w id hold offer d s e k (some media) = put-WellKeyed id _ s e k

pub send_reinvite-WellKeyed :
    (w : World) (id : List ℕ) (hold : Bool) (offer : Handle → List ℕ) (s : State)
    → WellKeyed s
    → WellKeyed (send_reinvite w id hold offer s).0
unfolding send_reinvite
send_reinvite-WellKeyed w id hold offer s k = elim (Option-cases (find id s.dialogs)) [
  | inl h ↦ rw h k
  | inr (d, h) ↦ rw h (elim (Bool-cases (is_confirmed d.state)) [
    | inl g ↦ rw g (media-WellKeyed w id hold offer d s (found-IsKeyed id d s k h) k d.media)
    | inr g ↦ rw g k
  ])
]

referred-WellKeyed :
    (w : World) (id refer_to : List ℕ) (s : State)
    → WellKeyed s
    → WellKeyed (referred w id refer_to (find id s.dialogs) s).0
referred-WellKeyed w id refer_to s k = elim (Option-cases (find id s.dialogs)) [
  | inl h ↦ rw h k
  | inr (d, h) ↦ rw h (elim (Bool-cases (is_confirmed d.state)) [
    | inl g ↦ rw g (put-WellKeyed id _ s (found-IsKeyed id d s k h) k)
    | inr g ↦ rw g k
  ])
]

pub blind_transfer-WellKeyed :
    (w : World) (id target : List ℕ) (s : State)
    → WellKeyed s
    → WellKeyed (blind_transfer w id target s).0
unfolding blind_transfer
blind_transfer-WellKeyed w id target s k = referred-WellKeyed w id target s k

consulted-WellKeyed :
    (w : World) (id : List ℕ) (o : Option Dialog) (s : State)
    → WellKeyed s
    → WellKeyed (consulted w id o s).0
consulted-WellKeyed w id none s k = k
consulted-WellKeyed w id (some d) s k = referred-WellKeyed w id _ s k

pub attended_transfer-WellKeyed :
    (w : World) (id consultation : List ℕ) (s : State)
    → WellKeyed s
    → WellKeyed (attended_transfer w id consultation s).0
unfolding attended_transfer
attended_transfer-WellKeyed w id consultation s k =
    consulted-WellKeyed w id (find consultation s.dialogs) s k

pub redirect_call-WellKeyed :
    (w : World) (id target : List ℕ) (s : State)
    → WellKeyed s
    → WellKeyed (redirect_call w id target s).0
unfolding redirect_call
redirect_call-WellKeyed w id target s k = elim (Option-cases (find id s.dialogs)) [
  | inl h ↦ rw h k
  | inr (d, h) ↦ rw h (All-remove IsKeyed id s.dialogs k)
]
