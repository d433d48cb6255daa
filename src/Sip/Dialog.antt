-- ===== src/Sip/Dialog.antt =====
-- crates/sip-core/src/call/dialog.rs: the dialog of a call. Media resources (`CallMedia`, `PendingOfferMedia`,
-- `PendingVideoOffer`, `IceGathered`) hold sockets and are only passed on here: they are handles.
use dee_lip.Prelude.{
  ℕ, ◌+◌, ◌%◌, ◌^◌, Bool, true, false, Option, none, some, List, [], ◌∷◌, ◌++◌, to_string, Outcome,
  ok, and_then,
}
use dee_lip.Sip.Util.{parse_uri}
use dee_lip.Sip.Hosts.{uri_host_port}

pub data DialogState : Type 0 where
  calling ringing confirmed terminating terminated : DialogState

abbrev pub Handle : Type 0
Handle = ℕ

-- An instant is a number of milliseconds.
pub record Dialog : Type 0 where
  pub call_id : List ℕ
  pub local_tag : List ℕ
  pub remote_tag : Option (List ℕ)
  pub remote_uri : List ℕ
  pub remote_contact : Option (List ℕ)
  pub remote_via : List ℕ
  pub invite_branch : List ℕ
  pub local_cseq : ℕ
  pub remote_cseq : Option ℕ
  pub state : DialogState
  pub remote_sdp : Option (List ℕ)
  pub local_sdp : Option (List ℕ)
  pub is_held : Bool
  pub hold_pending : Option Bool
  pub auth_retried : Bool
  pub media : Option Handle
  pub ice_gathered : Option Handle
  pub pending_offer : Option Handle
  pub pending_offer_video : Option Handle
  pub session_expires : Option ℕ
  pub we_are_refresher : Bool
  pub session_refresh_at : Option ℕ
  pub session_refresh_pending : Bool
  pub session_expires_retried : Bool
  pub incoming_session_expires : Option (ℕ × Option (List ℕ))
  pub original_role_is_uac : Bool

unfoldable pub new_outgoing : List ℕ → List ℕ → List ℕ → Dialog
new_outgoing call_id local_tag to_uri = record {
  call_id = call_id;
  local_tag = local_tag;
  remote_tag = none;
  remote_uri = to_uri;
  remote_contact = none;
  remote_via = [];
  invite_branch = [];
  local_cseq = 1;
  remote_cseq = none;
  state = calling;
  remote_sdp = none;
  local_sdp = none;
  is_held = false;
  hold_pending = none;
  auth_retried = false;
  media = none;
  ice_gathered = none;
  pending_offer = none;
  pending_offer_video = none;
  session_expires = none;
  we_are_refresher = false;
  session_refresh_at = none;
  session_refresh_pending = false;
  session_expires_retried = false;
  incoming_session_expires = none;
  original_role_is_uac = true;
}

unfoldable pub new_incoming :
    (call_id local_tag from_uri from_tag : List ℕ) → ℕ → (remote_sdp remote_via : List ℕ) → Dialog
new_incoming call_id local_tag from_uri from_tag remote_cseq remote_sdp remote_via = record {
  call_id = call_id;
  local_tag = local_tag;
  remote_tag = some from_tag;
  remote_uri = from_uri;
  remote_contact = none;
  remote_via = remote_via;
  invite_branch = [];
  local_cseq = 0;
  remote_cseq = some remote_cseq;
  state = calling;
  remote_sdp = some remote_sdp;
  local_sdp = none;
  is_held = false;
  hold_pending = none;
  auth_retried = false;
  media = none;
  ice_gathered = none;
  pending_offer = none;
  pending_offer_video = none;
  session_expires = none;
  we_are_refresher = false;
  session_refresh_at = none;
  session_refresh_pending = false;
  session_expires_retried = false;
  incoming_session_expires = none;
  original_role_is_uac = false;
}

-- The new sequence number, a 32-bit word, is the dialog's afterwards.
abbrev pub next_local_cseq : Dialog → ℕ
next_local_cseq d = (d.local_cseq + 1) % 2 ^ 32

abbrev shown : Option (List ℕ × ℕ) → Option (List ℕ)
shown none = none
shown (some (host, port)) = some (host ++ (0x3a ∷ to_string port))

abbrev contact_uri : Option (List ℕ) → Outcome (Unit {0}) (Option (List ℕ))
contact_uri none = ok none
contact_uri (some header) = parse_uri header

abbrev located : Option (List ℕ) → Option (List ℕ)
located none = none
located (some uri) = shown (uri_host_port uri)

unfoldable pub parse_remote_contact : Option (List ℕ) → Outcome (Unit {0}) (Option (List ℕ))
unfolding parse_uri uri_host_port to_string
parse_remote_contact contact_header =
    and_then (λ uri. ok (located uri)) (contact_uri contact_header)
