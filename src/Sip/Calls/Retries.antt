-- ===== src/Sip/Calls/Retries.antt =====
-- How often the responses to a call's INVITE make it send another (call/lifecycle/response).
use dee_lip.Prelude.{
  ℕ, ◌+◌, ◌≤◌, ◌≡◌, refl, ap, ◌∙◌, Bool, true, false, Option, none, some, Option-cases, Bool-cases,
  inl, inr, List, [], ◌∷◌, ◌++◌, if◌then◌else◌, All, arith, codes, find, total, total-insert,
  total-remove, find-insert, strip_prefix,
}
use dee_lip.Sip.Auth.{build_challenge_response}
use dee_lip.Sip.Builders.{build_ack}
use dee_lip.Sip.Dialog.{Dialog, Handle, ringing, confirmed, terminated}
use dee_lip.Sip.Calls.{
  State, World, Effect, sent, event, handed_on, connecting, resolving, call_failed, with_dialog,
}
use dee_lip.Sip.Calls.Requests.{bye_text}
use dee_lip.Sip.Calls.Teardown.{hang_up}
use dee_lip.Sip.Calls.Messages.{auth_name}
use dee_lip.Sip.Calls.Classify.{
  Ack, Verdict, nothing_to_do, is_ringing, connected, reinvite_ack, session_refresh_ack, bye_ok,
  failed, invite_challenged, session_interval_too_small,
}
use dee_lip.Sip.Calls.Judgement.{
  Judgement, idle, rings, connects, refreshes, reinvites, ends, fails, challenges, enlarges,
}
use dee_lip.Sip.Calls.Endings.{IsCalm, is_invite_text}
use dee_lip.Sip.Calls.Responses.{
  perform, perform_on, dropped, on_dialog, with_timer, handle_connected, no_codec, connect_media,
  challenge_dialog, interval_dialog, ack_sent,
}

abbrev pub unless : Bool → ℕ
unless b = if b then 0 else 1

-- The retries that a dialog still has: one with credentials, one with a longer interval.
abbrev pub retries : Dialog → ℕ
retries d = unless d.auth_retried + unless d.session_expires_retried

unfoldable pub budget : State → ℕ
budget s = total retries s.dialogs

abbrev pub invite_in : Effect → ℕ
invite_in (sent text addr) = if is_invite_text text then 1 else 0
invite_in e = 0

-- The INVITE requests among some effects.
unfoldable pub invites : List Effect → ℕ
invites [] = 0
invites (e ∷ es) = invite_in e + invites es

pub invites-append : (a b : List Effect) → invites (a ++ b) ≡ invites a + invites b
unfolding invites
invites-append [] b = omega arith
invites-append (e ∷ es) b = omega (arith, invites-append es b)

calm_none : (e : Effect) → IsCalm e → invite_in e ≡ 0
calm_none (sent text addr) h = rw h refl
calm_none (event e) h = refl
calm_none (handed_on m msg) h = refl
calm_none (connecting id o g v) h = refl
calm_none (resolving i) h = refl

pub invites-calm : (out : List Effect) → All IsCalm out → invites out ≡ 0
unfolding invites
invites-calm [] h = refl
invites-calm (e ∷ es) h = omega (arith, calm_none e h.0, invites-calm es h.1)

at_most_one : (e : Effect) → invite_in e ≤ 1
at_most_one (sent text addr) = elim (Bool-cases (is_invite_text text)) [
  | inl h ↦ rw h (omega arith)
  | inr h ↦ rw h (omega arith)
]
at_most_one (event e) = omega arith
at_most_one (handed_on m msg) = omega arith
at_most_one (connecting id o g v) = omega arith
at_most_one (resolving i) = omega arith

-- At most so many INVITE requests are sent, beyond the retries given up.
abbrev Spends : ℕ → State → State × List Effect → Type 0
Spends n s r = invites r.1 + budget r.0 ≤ n + budget s

put_budget :
    (id : List ℕ) (d new : Dialog) (s : State)
    → find id s.dialogs ≡ some d
    → budget (with_dialog id new s) + retries d ≡ budget s + retries new
unfolding budget
put_budget id d new s h = total-insert retries id d new s.dialogs h

put_same :
    (id : List ℕ) (d new : Dialog) (s : State)
    → find id s.dialogs ≡ some d
    → retries new ≡ retries d
    → budget (with_dialog id new s) ≡ budget s
put_same id d new s h e = omega (arith, put_budget id d new s h, e)

budget-dropped : (id : List ℕ) (s : State) → budget (dropped id s) ≤ budget s
unfolding budget
budget-dropped id s = total-remove retries id s.dialogs

ack_none : (s : State) (a : Ack) (branch : List ℕ) → invite_in (ack_sent s a branch) ≡ 0
unfolding build_ack strip_prefix
ack_none s a branch = refl

budget-on_dialog :
    (id : List ℕ) (f : Dialog → Dialog) (s : State)
    → ((d : Dialog) → retries (f d) ≡ retries d)
    → budget (on_dialog id f (find id s.dialogs) s) ≡ budget s
budget-on_dialog id f s kept = elim (Option-cases (find id s.dialogs)) [
  | inl h ↦ rw h refl
  | inr (d, h) ↦ rw h (put_same id d (f d) s h (kept d))
]

budget-with_timer :
    (w : World) (id : List ℕ) (timer : Option (ℕ × Option (List ℕ))) (s : State)
    → budget (with_timer w id timer s) ≡ budget s
budget-with_timer w id none s = refl
budget-with_timer w id (some (interval, refresher)) s = budget-on_dialog id _ s (λ d. refl)

hang_up-Spends : (w : World) (id : List ℕ) (s : State) → Spends 0 s (hang_up w id s)
unfolding hang_up invites bye_text strip_prefix
hang_up-Spends w id s = elim (Option-cases (find id s.dialogs)) [
  | inl h ↦ rw h (omega arith)
  | inr (d, h) ↦ rw h (omega (arith, put_same id d _ s h refl))
]

connect_media-Spends :
    (id : List ℕ) (offer gathered : Option Handle) (s : State)
    → Spends 0 s (connect_media id offer gathered s)
unfolding invites
connect_media-Spends id none gathered s = omega arith
connect_media-Spends id (some o) gathered s =
    omega (arith, budget-on_dialog id (λ d. record d { pending_offer_video = none }) s (λ d. refl))

no_codec-Spends : (w : World) (id : List ℕ) (s : State) → Spends 0 s (no_codec w id s)
unfolding invites
no_codec-Spends w id s =
    let out = (hang_up w id s).1 in
    let last = event (call_failed id 0 (codes "No compatible codec in answer")) ∷ [] in
    omega
      (arith, hang_up-Spends w id s, budget-dropped id (hang_up w id s).0, invites-append out last)

connected-Spends :
    (w : World) (id sdp : List ℕ) (offer gathered : Option Handle) (a : Ack)
    (timer : Option (ℕ × Option (List ℕ))) (s : State)
    → Spends 0 s (handle_connected w id sdp offer gathered a timer s)
unfolding invites
connected-Spends w id sdp offer gathered a timer s =
    let s' = with_timer w id timer s in
    let ack = ack_none s a w.branch in
    let kept = budget-with_timer w id timer s in
    elim (Bool-cases (w.has_codec sdp)) [
      | inl h ↦ rw h (omega (arith, ack, kept, connect_media-Spends id offer gathered s'))
      | inr h ↦ rw h (omega (arith, ack, kept, no_codec-Spends w id s'))
    ]

challenge-Spends :
    (w : World) (id to_uri sdp : List ℕ) (a : Ack) (auth : Option (List ℕ)) (s : State)
    → Spends 1 s (challenge_dialog w id to_uri sdp a auth (find id s.dialogs) s)
unfolding invites
challenge-Spends w id to_uri sdp a auth s = elim (Option-cases (find id s.dialogs)) [
  | inl h ↦ rw h (omega arith)
  | inr (d, h) ↦ rw h (elim (Option-cases auth) [
    | inl g ↦ rw g (omega (arith, ack_none s a d.invite_branch, budget-dropped id s))
    | inr (x, g) ↦
        rw g (omega (arith, ack_none s a d.invite_branch, put_same id d _ s h refl, at_most_one _))
  ])
]

interval-Spends :
    (w : World) (id to_uri sdp : List ℕ) (min_se : ℕ) (a : Ack) (d : Dialog) (s : State)
    → find id s.dialogs ≡ some d
    → d.session_expires_retried ≡ false
    → Spends 0 s (interval_dialog w id to_uri sdp min_se a (find id s.dialogs) s)
unfolding invites
interval-Spends w id to_uri sdp min_se a d s h fresh = rw h (
    omega
      (arith, ack_none s a d.invite_branch, put_budget id d _ s h, ap unless fresh, at_most_one _))

-- What is done on a verdict, for the dialog as it was found.
module _ (w : World) (id : List ℕ) (s : State) (d : Dialog) (found : find id s.dialogs ≡ some d)
    (keyed : d.call_id ≡ id) where
  again : (new : Dialog) → find id (with_dialog id new s).dialogs ≡ some new
  again new = find-insert id new s.dialogs

  after :
      (v : Verdict) (n : ℕ)
      → retries v.0 + n ≡ retries d
      → Spends n (with_dialog id v.0 s) (perform_on w id s v)
      → Spends 0 s (perform_on w id s v)
  after v n e h = omega (arith, put_budget id d v.0 s found)

  pub judged-Spends : (v : Verdict) → Judgement id d v → Spends 0 s (perform_on w id s v)
  unfolding perform invites
  judged-Spends _ idle = after (d, nothing_to_do) 0 (omega arith) (omega arith)
  judged-Spends _ rings =
      after (record d { state = ringing }, is_ringing) 0 (omega arith) (omega arith)
  judged-Spends _ (connects sdp tag contact a timer) =
      let new = record d {
        state = confirmed;
        remote_tag = tag;
        remote_sdp = some sdp;
        remote_contact = contact;
        pending_offer = none;
        ice_gathered = none;
      } in
      after (new, connected d.call_id sdp d.pending_offer d.ice_gathered a timer) 0 (omega arith)
        (connected-Spends w d.call_id sdp d.pending_offer d.ice_gathered a timer
          (with_dialog id new s))
  judged-Spends _ (refreshes a timer) =
      let new = record d { session_refresh_pending = false } in
      after (new, session_refresh_ack d.call_id a timer) 0 (omega arith)
        (omega (
          arith,
          ack_none s a w.branch,
          budget-with_timer w d.call_id timer (with_dialog id new s),
        ))
  judged-Spends _ (reinvites hold a) =
      after (record d { hold_pending = none; is_held = hold }, reinvite_ack d.call_id hold a) 0
        (omega arith) (omega (arith, ack_none s a w.branch))
  judged-Spends _ ends =
      let new = record d { state = terminated } in
      after (new, bye_ok d.call_id) 0 (omega arith)
        (omega (arith, budget-dropped d.call_id (with_dialog id new s)))
  judged-Spends _ (fails code reason) =
      after (d, failed id code reason) 0 (omega arith)
        (omega (arith, budget-dropped id (with_dialog id d s)))
  judged-Spends _ (challenges sdp raw a fresh) =
      after (record d { auth_retried = true }, invite_challenged d.call_id d.remote_uri sdp raw a) 1
        (omega (arith, ap unless fresh))
        (challenge-Spends w d.call_id d.remote_uri sdp a
          (build_challenge_response w.md5_hex (auth_name s.stack) s.stack.password (codes "INVITE")
            d.remote_uri raw)
          (with_dialog id (record d { auth_retried = true }) s))
  judged-Spends _ (enlarges sdp min_se a fresh) =
      after (d, session_interval_too_small d.call_id d.remote_uri sdp min_se a) 0 (omega arith)
        (interval-Spends w d.call_id d.remote_uri sdp min_se a d (with_dialog id d s)
          (ap (λ k. find k (with_dialog id d s).dialogs) keyed ∙ again d) fresh)
