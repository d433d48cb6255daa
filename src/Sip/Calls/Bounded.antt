-- ===== src/Sip/Calls/Bounded.antt =====
-- A sequence of responses (`on_response` of call/lifecycle/response/mod.rs) and the retries it makes.
use dee_lip.Prelude.{
  ℕ, ◌+◌, ◌*◌, ◌≤◌, ◌≡◌, ap, Bool-cases, inl, inr, List, [], ◌∷◌, ◌++◌, length, arith, total,
  total-twice, panic, err, ok, and_then,
}
use dee_lip.Sip.Message.{SipMessage}
use dee_lip.Sip.Dialog.{Dialog}
use dee_lip.Sip.Calls.{State, World, Effect}
use dee_lip.Sip.Calls.Endings.{Ends, IsQuiet, on_response-Ends}
use dee_lip.Sip.Calls.Keys.{WellKeyed, found-IsKeyed, on_response-WellKeyed}
use dee_lip.Sip.Calls.Retries.{
  retries, unless, budget, invites, invites-append, invites-calm, judged-Spends,
}
use dee_lip.Sip.Calls.Responses.{Result, on_response}

quiet_budget : (s s' : State) (out : List Effect) → IsQuiet s s' out → budget s' ≡ budget s
unfolding budget
quiet_budget s s' out q = ap (total retries) q.same

pub on_response-Spends :
    (w : World) (msg : SipMessage) (status : ℕ) (s : State)
    → WellKeyed s
    → Ends (λ s' out. invites out + budget s' ≤ budget s) (on_response w msg status s)
on_response-Spends w msg status s k =
    on_response-Ends w msg status s (λ s' out. invites out + budget s' ≤ budget s)
      (λ s' out q. omega (arith, invites-calm out q.calm, quiet_budget s s' out q))
      (λ id d v named found judged.
        omega (arith, judged-Spends w id s d found (found-IsKeyed id d s k found) v judged))

-- A response, with what it meets and its status.
abbrev pub Response : Type 0
Response = World × SipMessage × ℕ

abbrev pub behind : List Effect → State × List Effect → Result
behind out (s, more) = ok (s, out ++ more)

-- One response after another.
unfoldable pub on_responses : List Response → State → Result
unfolding on_response
on_responses [] s = ok (s, [])
on_responses ((w, msg, status) ∷ rs) s =
    and_then (λ r. and_then (behind r.1) (on_responses rs r.0)) (on_response w msg status s)

abbrev Bounded : State → Result → Type 0
Bounded s r = Ends (λ s' out. invites out + budget s' ≤ budget s) r

behind-Bounded :
    (s t : State) (out : List Effect) (r : Result)
    → invites out + budget t ≤ budget s
    → Bounded t r
    → Bounded s (and_then (behind out) r)
behind-Bounded s t out panic h b = tt
behind-Bounded s t out (err e) h b = tt
behind-Bounded s t out (ok (u, more)) h b = omega (arith, invites-append out more)

response-Bounded :
    (rs : List Response) (s : State) (o : Result)
    → ((t : State) → WellKeyed t → Bounded t (on_responses rs t))
    → Ends (λ t out. WellKeyed t) o
    → Bounded s o
    → Bounded s (and_then (λ r. and_then (behind r.1) (on_responses rs r.0)) o)
response-Bounded rs s panic later k b = tt
response-Bounded rs s (err e) later k b = tt
response-Bounded rs s (ok (t, out)) later k b =
    behind-Bounded s t out (on_responses rs t) b (later t k)

on_responses-Bounded :
    (rs : List Response) (s : State) → WellKeyed s → Bounded s (on_responses rs s)
unfolding on_responses invites
on_responses-Bounded [] s k = omega arith
on_responses-Bounded ((w, msg, status) ∷ rs) s k =
    response-Bounded rs s (on_response w msg status s) (on_responses-Bounded rs)
      (on_response-WellKeyed w msg status s k) (on_response-Spends w msg status s k)

at_most_two : (d : Dialog) → retries d ≤ 2
at_most_two d = elim (Bool-cases d.auth_retried) [
  | inl h ↦ elim (Bool-cases d.session_expires_retried) [
    | inl g ↦ omega (arith, ap unless h, ap unless g)
    | inr g ↦ omega (arith, ap unless h, ap unless g)
  ]
  | inr h ↦ elim (Bool-cases d.session_expires_retried) [
    | inl g ↦ omega (arith, ap unless h, ap unless g)
    | inr g ↦ omega (arith, ap unless h, ap unless g)
  ]
]

budget_bound : (s : State) → budget s ≤ 2 * length s.dialogs
unfolding budget
budget_bound s = total-twice retries at_most_two s.dialogs

weaken :
    (s : State) (r : Result) → Bounded s r → Ends (λ s' out. invites out ≤ 2 * length s.dialogs) r
weaken s panic b = tt
weaken s (err e) b = tt
weaken s (ok (t, out)) b = omega (arith, budget_bound s)

-- For dialogs that stand under their own Call-IDs: however many responses arrive, in whatever order, the INVITE
-- requests that they make a stack send are at most two for each dialog that it had.
pub on_responses-invites :
    (rs : List Response) (s : State)
    → WellKeyed s
    → Ends (λ s' out. invites out ≤ 2 * length s.dialogs) (on_responses rs s)
on_responses-invites rs s k = weaken s (on_responses rs s) (on_responses-Bounded rs s k)
