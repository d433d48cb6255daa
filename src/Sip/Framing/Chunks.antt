-- ===== src/Sip/Framing/Chunks.antt =====
-- `recv` gives the messages of the stream, however the stream is cut into chunks.
use dee_lip.Prelude.{
  ℕ, zero, suc, ◌≡◌, ◌≢◌, refl, ap, sym, ◌∙◌, false, inl, inr, Option, none, some, Option-cases,
  List, [], ◌∷◌, ◌++◌, append_assoc, append-nil, All, length, ◌==◌, arith,
}
use dee_lip.Sip.Framing.{
  MessageFramer, Received, message, closed, try_take_message, push, recv, recv_all,
}
use dee_lip.Sip.Framing.Stability.{try_take_message-push}

pub concat : List (List ℕ) → List ℕ
concat [] = []
concat (c ∷ cs) = c ++ concat cs

-- A read that returns no bytes is the end of the stream, so no chunk is empty.
abbrev pub IsChunk : List ℕ → Type 0
IsChunk c = c ≢ []

-- The messages that stand one after the other in the bytes, at most `n`.
pub messages_in : ℕ → MessageFramer → List (List ℕ)
messages_in zero f = []
messages_in (suc n) f = elim (try_take_message f) [
  | some (m, f') ↦ m ∷ messages_in n f'
  | none ↦ []
]

-- One `recv`, seen on the bytes as a whole.
data Seen (f : MessageFramer) (chunks : List (List ℕ)) : Type 0 where
  at_end : recv f chunks ≡ closed → try_take_message (push f (concat chunks)) ≡ none → Seen f chunks
  taken :
      (m : List ℕ) (g : MessageFramer) (rest : List (List ℕ))
      → recv f chunks ≡ message m g rest
      → try_take_message (push f (concat chunks)) ≡ some (m, push g (concat rest))
      → All IsChunk rest
      → Seen f chunks

nonempty : (c : List ℕ) → IsChunk c → (length c == 0) ≡ false
nonempty [] h = absurd (h refl)
nonempty (x ∷ xs) h = ground arith

push-concat :
    (f : MessageFramer) (c : List ℕ) (cs : List (List ℕ))
    → push (push f c) (concat cs) ≡ push f (concat (c ∷ cs))
unfolding push concat
push-concat f c cs = ap (λ b. record { buf = b }) (append_assoc f.buf c (concat cs))

push-nil : (f : MessageFramer) → push f [] ≡ f
unfolding push
push-nil f = ap (λ b. record { buf = b }) (append-nil f.buf)

recv_later :
    (f : MessageFramer) (c : List ℕ) (cs : List (List ℕ))
    → IsChunk c
    → try_take_message f ≡ none
    → recv f (c ∷ cs) ≡ recv (push f c) cs
unfolding recv
recv_later f c cs h e = rw (e, nonempty c h) refl

recv_now :
    (f g : MessageFramer) (m : List ℕ) (cs : List (List ℕ))
    → try_take_message f ≡ some (m, g)
    → recv f cs ≡ message m g cs
unfolding recv
recv_now f g m [] e = rw e refl
recv_now f g m (c ∷ cs) e = rw e refl

Seen-later :
    (f : MessageFramer) (c : List ℕ) (cs : List (List ℕ))
    → IsChunk c
    → try_take_message f ≡ none
    → Seen (push f c) cs
    → Seen f (c ∷ cs)
Seen-later f c cs h e (at_end r t) =
    at_end (recv_later f c cs h e ∙ r) (ap try_take_message (sym (push-concat f c cs)) ∙ t)
Seen-later f c cs h e (taken m g rest r t w) =
    taken m g rest (recv_later f c cs h e ∙ r) (ap try_take_message (sym (push-concat f c cs)) ∙ t)
      w

Seen-end : (f : MessageFramer) → try_take_message f ≡ none → Seen f []
unfolding recv concat
Seen-end f e = at_end (rw e refl) (ap try_take_message (push-nil f) ∙ e)

seen : (f : MessageFramer) (chunks : List (List ℕ)) → All IsChunk chunks → Seen f chunks
seen f [] w = elim (Option-cases (try_take_message f)) [
  | inl e ↦ Seen-end f e
  | inr ((m, g), e) ↦
      taken m g [] (recv_now f g m [] e) (try_take_message-push f g m (concat []) e).1 w
]
seen f (c ∷ cs) w = elim (Option-cases (try_take_message f)) [
  | inl e ↦ Seen-later f c cs w.0 e (seen (push f c) cs w.1)
  | inr ((m, g), e) ↦
      taken m g (c ∷ cs) (recv_now f g m (c ∷ cs) e)
        (try_take_message-push f g m (concat (c ∷ cs)) e).1 w
]

recv_all-step :
    (n : ℕ) (f : MessageFramer) (chunks : List (List ℕ)) (r : Received)
    → recv f chunks ≡ r
    → recv_all (suc n) f chunks
      ≡ elim r [ message m f' chunks' ↦ m ∷ recv_all n f' chunks' | closed ↦ [] ]
unfolding recv_all
recv_all-step n f chunks r e =
    ap
      (λ (x : Received). elim x as (λ _. List (List ℕ)) [
        | message m f' chunks' ↦ m ∷ recv_all n f' chunks'
        | closed ↦ []
      ])
      e

messages_in-step :
    (n : ℕ) (f : MessageFramer) (o : Option (List ℕ × MessageFramer))
    → try_take_message f ≡ o
    → messages_in (suc n) f ≡ elim o [ some (m, f') ↦ m ∷ messages_in n f' | none ↦ [] ]
unfolding messages_in
messages_in-step n f o e =
    ap
      (λ (x : Option (List ℕ × MessageFramer)). elim x as (λ _. List (List ℕ)) [
        | some (m, f') ↦ m ∷ messages_in n f'
        | none ↦ []
      ])
      e

-- Over a stream whose reads return at least a byte, the first `n` calls of `recv` give the messages that
-- stand one after the other in the bytes received, wherever the reads cut them.
pub recv_all-messages_in :
    (n : ℕ) (f : MessageFramer) (chunks : List (List ℕ))
    → All IsChunk chunks
    → recv_all n f chunks ≡ messages_in n (push f (concat chunks))
unfolding recv_all messages_in
recv_all-messages_in zero f chunks w = refl
recv_all-messages_in (suc n) f chunks w = elim (seen f chunks w) [
  | at_end r t ↦
      recv_all-step n f chunks closed r ∙ sym (messages_in-step n (push f (concat chunks)) none t)
  | taken m g rest r t k ↦
      recv_all-step n f chunks (message m g rest) r
      ∙ ap (λ l. m ∷ l) (recv_all-messages_in n g rest k)
      ∙ sym (messages_in-step n (push f (concat chunks)) (some (m, push g (concat rest))) t)
]
