-- ===== src/Chat/Room/Deliveries.antt =====
-- What `chat_session::deliver` does to the sessions of example/chat/chat_server.cpp, repeated.
use xynet.Prelude.{ℕ, ◌+◌, ◌≡◌, refl, arith, ◌∙◌, ap, sym}
use xynet.Prelude.{◌==◌, if◌then◌else◌, Bool-cases, inl, inr}
use xynet.Prelude.{List, [], ◌∷◌, ◌++◌, length, length-append, replicate, count}
use mathlib.Core.List.{append-nil, append_assoc}
use mathlib.Core.Path.{subst}
use xynet.Chat.{Message, ChatSession, deliver_to, deliver_all, deliver_each}

-- What a session is told: its pending messages, and how often its writer is woken.
abbrev pub Told : ChatSession → List Message → ChatSession → Type 0
Told before ms after =
    (after.m_write_msgs ≡ before.m_write_msgs ++ ms)
    × (after.event_sets ≡ before.event_sets + length ms)
    × (after.address ≡ before.address)

pub none-Told : (s : ChatSession) → Told s [] s
none-Told s = (sym (append-nil s.m_write_msgs), omega arith, refl)

pub again-Told :
    (a b c : ChatSession) (xs ys : List Message) → Told a xs b → Told b ys c → Told a (xs ++ ys) c
again-Told a b c xs ys (p, q, r) (p', q', r') = (
  p' ∙ ap (λ ms. ms ++ ys) p ∙ append_assoc a.m_write_msgs xs ys,
  omega (arith, length-append xs ys),
  r' ∙ r,
)

-- The message, if it is for that session.
abbrev pub mail : List Message → ℕ → ℕ → List Message
mail ms q p = if q == p then ms else []

deliver_to-Told :
    (m : Message) (q : ℕ) (sessions : ℕ → ChatSession) (p : ℕ)
    → Told (sessions p) (mail (m ∷ []) q p) (deliver_to m q sessions p)
deliver_to-Told m q sessions p = elim (Bool-cases (q == p)) [
  | inl e ↦ rw e (refl, refl, refl)
  | inr e ↦ rw e (none-Told (sessions p))
]

pub deliver_all-Told :
    (m : Message) (ps : List ℕ) (sessions : ℕ → ChatSession) (p : ℕ)
    → Told (sessions p) (replicate (count p ps) m) (deliver_all m ps sessions p)
unfolding deliver_all
deliver_all-Told m [] sessions p = none-Told (sessions p)
deliver_all-Told m (q ∷ ps) sessions p =
    let counted : mail (m ∷ []) q p ++ replicate (count p ps) m ≡ replicate (count p (q ∷ ps)) m =
      ground arith in
    subst (λ ms. Told (sessions p) ms (deliver_all m (q ∷ ps) sessions p)) counted
      (again-Told (sessions p) (deliver_to m q sessions p) _ _ _ (deliver_to-Told m q sessions p)
        (deliver_all-Told m ps (deliver_to m q sessions) p))

pub deliver_each-Told :
    (ms : List Message) (q : ℕ) (sessions : ℕ → ChatSession) (p : ℕ)
    → Told (sessions p) (mail ms q p) (deliver_each ms q sessions p)
unfolding deliver_each
deliver_each-Told [] q sessions p =
    let nothing : [] ≡ mail [] q p = ground arith in
    subst (λ ms. Told (sessions p) ms (sessions p)) nothing (none-Told (sessions p))
deliver_each-Told (m ∷ ms) q sessions p =
    let split : mail (m ∷ []) q p ++ mail ms q p ≡ mail (m ∷ ms) q p = ground arith in
    subst (λ l. Told (sessions p) l (deliver_each (m ∷ ms) q sessions p)) split
      (again-Told (sessions p) (deliver_to m q sessions p) _ _ _ (deliver_to-Told m q sessions p)
        (deliver_each-Told ms q (deliver_to m q sessions) p))
