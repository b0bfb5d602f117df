-- ===== src/Handshake/Loop.antt =====
-- The loop over the messages of a record, of `parseSSLHandshake`.
use robin_mesh_v.Prelude.{ℕ, zero, suc, List, [], ◌∷◌, length, ◌≡◌, refl, arith, ◌<◌}
use robin_mesh_v.Handshake.{parse_message, parse_messages}
use robin_mesh_v.Handshake.Base.{Env, Conn, Rc, Step, continue, stop, fault}
use robin_mesh_v.Handshake.Hello.{Goes, goes, stopped, faulted}
use robin_mesh_v.Handshake.Order.{parse_message-Stepped}

Behind : List ℕ → Step → Type 0
Behind c = Goes (λ k rc rest. length rest < length c)

no_message :
    (env : Env) (inbuf : List ℕ) (k k' : Conn) (rc rc' : Rc) (rest : List ℕ)
    → parse_message env inbuf k rc [] ≡ continue k' rc' rest
    → ⊥
unfolding parse_message
no_message env inbuf k k' rc rc' rest e = cc

-- What is left behind a message is shorter than what it began with.
behind :
    (env : Env) (inbuf : List ℕ) (k : Conn) (rc : Rc) (c : List ℕ) (s : Step)
    → parse_message env inbuf k rc c ≡ s
    → Behind c s
unfolding Behind
behind env inbuf k rc c (stop k') e = stopped
behind env inbuf k rc c fault e = faulted
behind env inbuf k rc [] (continue k' rc' rest) e = absurd (no_message env inbuf k k' rc rc' rest e)
behind env inbuf k rc (t ∷ c) (continue k' rc' rest) e =
    goes (omega (arith, (parse_message-Stepped env inbuf k k' rc rc' t c rest e).shorter))

-- Enough fuel: with more than there are bytes the loop always returns the same, so it has ended by
-- its own tests.
pub parse_messages-fuel :
    (f g : ℕ) (env : Env) (inbuf : List ℕ) (k : Conn) (rc : Rc) (c : List ℕ)
    → length c < f
    → length c < g
    → parse_messages f env inbuf k rc c ≡ parse_messages g env inbuf k rc c
unfolding Behind
parse_messages-fuel zero g env inbuf k rc c hf hg = absurd (omega arith)
parse_messages-fuel (suc f) zero env inbuf k rc c hf hg = absurd (omega arith)
parse_messages-fuel (suc f) (suc g) env inbuf k rc c hf hg =
    by_step (λ k' rc' d. parse_messages-fuel f g env inbuf k' rc' d)
      (parse_message env inbuf k rc c) refl (behind env inbuf k rc c _ refl)
  where
    by_step :
        ((k' : Conn) (rc' : Rc) (d : List ℕ)
          → length d < f
          → length d < g
          → parse_messages f env inbuf k' rc' d ≡ parse_messages g env inbuf k' rc' d)
        → (s : Step) → parse_message env inbuf k rc c ≡ s
        → Behind c s
        → parse_messages (suc f) env inbuf k rc c ≡ parse_messages (suc g) env inbuf k rc c
    by_step ih (stop k') e b = unfold parse_messages in rw (parse_messages, e) refl
    by_step ih fault e b = unfold parse_messages in rw (parse_messages, e) refl
    by_step ih (continue k' rc' []) e b = unfold parse_messages in rw (parse_messages, e) refl
    by_step ih (continue k' rc' (x ∷ d)) e (goes b) =
        unfold parse_messages in
        rw (parse_messages, e) (ih k' rc' (x ∷ d) (omega arith) (omega arith))
