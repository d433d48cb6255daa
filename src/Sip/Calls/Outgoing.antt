-- ===== src/Sip/Calls/Outgoing.antt =====
-- `on_outgoing_offer_ready` of crates/sip-core/src/call/lifecycle/outgoing.rs: the INVITE of a new call.
use dee_lip.Prelude.{ℕ, Option, none, some, List, [], ◌∷◌, ◌++◌, codes, if◌then◌else◌, insert}
use dee_lip.Sip.Dialog.{Dialog, Handle, new_outgoing}
use dee_lip.Sip.Calls.{State, World, Handler, sent, event, call_failed, with_dialog}
use dee_lip.Sip.Calls.Requests.{build_invite, session_expires_default}

-- `StackEvent::OutgoingOfferReady`
pub record OutgoingOfferReady : Type 0 where
  pub call_id : List ℕ
  pub from_tag : List ℕ
  pub branch : List ℕ
  pub to : List ℕ
  pub local_sdp : List ℕ
  pub pending_offer : Handle
  pub ice_gathered : Option Handle
  pub video : Option Handle

unfoldable pub offered : OutgoingOfferReady → Dialog
unfolding new_outgoing
offered ev = record (new_outgoing ev.call_id ev.from_tag ev.to) {
  local_sdp = some ev.local_sdp;
  invite_branch = ev.branch;
  ice_gathered = ev.ice_gathered;
  pending_offer = some ev.pending_offer;
  pending_offer_video = ev.video;
}

abbrev pub first_invite : State → OutgoingOfferReady → List ℕ
first_invite s ev =
    build_invite s.stack ev.call_id ev.from_tag (offered ev).local_cseq ev.to ev.local_sdp none
      ev.branch session_expires_default

abbrev failed : List ℕ → List ℕ → Handler
failed id reason s = (s, event (call_failed id 0 reason) ∷ [])

abbrev invited : OutgoingOfferReady → List ℕ → Option (List ℕ) → Handler
invited ev dest (some e) s = failed ev.call_id (codes "Failed to send INVITE: " ++ e) s
invited ev dest none s = (with_dialog ev.call_id (offered ev) s, sent (first_invite s ev) dest ∷ [])

abbrev invite_to : World → OutgoingOfferReady → Option (List ℕ) → Handler
invite_to w ev none s = failed ev.call_id (codes "Couldn't resolve call target") s
invite_to w ev (some dest) s = invited ev dest (w.send_error (first_invite s ev)) s

unfoldable pub on_outgoing_offer_ready : World → OutgoingOfferReady → Handler
unfolding offered build_invite insert
on_outgoing_offer_ready w ev s =
    invite_to w ev
      (if s.local_account then w.resolve_local_call_target ev.to else some s.stack.server_addr) s
