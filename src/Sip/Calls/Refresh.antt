-- ===== src/Sip/Calls/Refresh.antt =====
-- crates/sip-core/src/call/lifecycle/reinvite.rs: the refresh of a session, and DTMF in INFO requests.
use dee_lip.Prelude.{
  ℕ, Bool, true, false, ◌&&◌, Option, none, some, List, [], ◌∷◌, if◌then◌else◌, leb, Map, find,
  insert,
}
use dee_lip.Sip.Dialog.{
  Dialog, DialogState, calling, ringing, confirmed, terminating, terminated, next_local_cseq,
}
use dee_lip.Sip.Calls.{World, Handler, sent, with_dialog, contact_addr, then_do}
use dee_lip.Sip.Calls.Requests.{refresh_text, info_text}

abbrev pub is_confirmed : DialogState → Bool
is_confirmed calling = false
is_confirmed ringing = false
is_confirmed confirmed = true
is_confirmed terminating = false
is_confirmed terminated = false

abbrev pub refresh_dialog : World → List ℕ → Dialog → Option ℕ → Option (List ℕ) → Handler
refresh_dialog w id d none sdp s = (s, [])
refresh_dialog w id d (some interval) none s = (s, [])
refresh_dialog w id d (some interval) (some local_sdp) s =
    let d' = record d { local_cseq = next_local_cseq d; session_refresh_pending = true } in
    (
      with_dialog id d' s,
      sent (refresh_text s.stack d' d'.local_cseq interval local_sdp w.branch)
            (contact_addr w s.stack d')
          ∷ [],
    )

abbrev pub refresh_of : World → List ℕ → Option Dialog → Handler
refresh_of w id none s = (s, [])
refresh_of w id (some d) s =
    if is_confirmed d.state && d.we_are_refresher
    then refresh_dialog w id d d.session_expires d.local_sdp s
    else (s, [])

unfoldable pub send_session_refresh : World → List ℕ → Handler
unfolding find insert refresh_text contact_addr
send_session_refresh w id s = refresh_of w id (find id s.dialogs) s

abbrev past : ℕ → Option ℕ → Bool
past now none = false
past now (some at) = leb at now

unfoldable pub due : ℕ → Map Dialog → List (List ℕ)
due now [] = []
due now (e ∷ es) =
    let rest = due now es in
    if is_confirmed e.1.state && (e.1.we_are_refresher && past now e.1.session_refresh_at)
    then e.0 ∷ rest
    else rest

unfoldable pub refresh_each : World → List (List ℕ) → Handler
unfolding send_session_refresh
refresh_each w [] s = (s, [])
refresh_each w (id ∷ ids) s = then_do (send_session_refresh w id s) (refresh_each w ids)

unfoldable pub refresh_session_timers : World → Handler
unfolding due refresh_each
refresh_session_timers w s = refresh_each w (due w.now s.dialogs) s

abbrev info_of : World → List ℕ → ℕ → Option Dialog → Handler
info_of w id digit none s = (s, [])
info_of w id digit (some d) s =
    if is_confirmed d.state
    then (let d' = record d { local_cseq = next_local_cseq d } in
        (
          with_dialog id d' s,
          sent (info_text s.stack d' d'.local_cseq digit w.branch) (contact_addr w s.stack d') ∷ [],
        ))
    else (s, [])

unfoldable pub send_dtmf_info : World → List ℕ → ℕ → Handler
unfolding find insert info_text contact_addr
send_dtmf_info w id digit s = info_of w id digit (find id s.dialogs) s
