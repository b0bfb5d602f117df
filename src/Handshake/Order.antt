-- ===== src/Handshake/Order.antt =====
-- The order of a handshake's messages: the moves between states that `parseSSLHandshake` makes.
use robin_mesh_v.Prelude.{
  ℕ, ◌+◌, ◌*◌, ◌^◌, true, Option, none, some, List, [], ◌∷◌, ltb, leb, ◌==◌, if◌then◌else◌, length,
  drop, ◌≡◌, refl, arith, inl, inr, ◌≢◌, ◌⊎◌, ◌∙◌, ap, sym, ◌≤◌, ◌<◌,
}
use mathlib.Core.Path.{subst}
use robin_mesh_v.Session.{same_bytes}
use robin_mesh_v.Handshake.{
  parse_message, admit_type, begin_hello, read_header, read_v3, dispatch, snapshot, add_hash,
}
use robin_mesh_v.Handshake.Base.{
  Env, Conn, Rc, Step, continue, hello_request, client_hello, server_hello, certificate,
  certificate_request, server_hello_done, client_key_exchange, finished, hs_done,
}
use robin_mesh_v.Handshake.Entry.{Entry, same, greet, ask, call, Entered, admit_type-Entered}
use robin_mesh_v.Handshake.Hello.{
  Goes, stopped, Goes-if, Goes-map, Goes-continue, handle_client_hello-HelloNext, HelloNext,
}
use robin_mesh_v.Handshake.Moves.{
  To, Authentic, handle_client_key_exchange-To, handle_finished-To, handle_hello_request-To,
  handle_server_hello-To, Goes-test,
}
use robin_mesh_v.Handshake.Certificates.{
  handle_certificate-To, handle_server_hello_done-To, handle_certificate_request-To,
}

-- What one message of the protocol may do to the state, from `h` to `h'`.
pub data Transition (h h' : ℕ) : Type 0 where
  greeted :
      (h ≡ client_hello) ⊎ (h ≡ hs_done)
      → (h' ≡ finished) ⊎ (h' ≡ client_key_exchange)
      → Transition h h'
  keyed : h ≡ client_key_exchange → h' ≡ finished → Transition h h'
  completed : h ≡ finished → h' ≡ hs_done → Transition h h'
  called_back : (h ≡ hs_done) ⊎ (h ≡ hello_request) → h' ≡ hello_request → Transition h h'
  answered : h ≡ server_hello → (h' ≡ finished) ⊎ (h' ≡ certificate) → Transition h h'
  certified :
      h ≡ certificate → (h' ≡ server_hello_done) ⊎ (h' ≡ client_key_exchange) → Transition h h'
  invited : h ≡ server_hello_done → h' ≡ finished → Transition h h'
  asked :
      (h ≡ server_hello_done) ⊎ (h ≡ certificate_request) → h' ≡ server_hello_done → Transition h h'

-- The same once the message's type has been looked at; the switch is on that state.
data Switch (h h' : ℕ) : Type 0 where
  on_hello : h ≡ client_hello → (h' ≡ finished) ⊎ (h' ≡ client_key_exchange) → Switch h h'
  on_key : h ≡ client_key_exchange → h' ≡ finished → Switch h h'
  on_finished : h ≡ finished → h' ≡ hs_done → Switch h h'
  on_request : h ≡ hello_request → h' ≡ hello_request → Switch h h'
  on_answer : h ≡ server_hello → (h' ≡ finished) ⊎ (h' ≡ certificate) → Switch h h'
  on_certificate :
      h ≡ certificate → (h' ≡ server_hello_done) ⊎ (h' ≡ client_key_exchange) → Switch h h'
  on_done : h ≡ server_hello_done → h' ≡ finished → Switch h h'
  on_cert_request : h ≡ certificate_request → h' ≡ server_hello_done → Switch h h'

one_of : {A : Type 0} → A ⊎ A → A
one_of (inl a) = a
one_of (inr a) = a

record Dispatched (hash : List ℕ) (k : Conn) (c : List ℕ) (k' : Conn) (rest : List ℕ) : Type 0 where
  switch : Switch k.ssl.hs_state k'.ssl.hs_state
  shorter : length rest ≤ length c
  proven : k'.ssl.hs_state ≡ hs_done → Authentic hash k c

module _ (env : Env) (hash : List ℕ) (k : Conn) (rc : Rc) (n : ℕ) (c : List ℕ) where
  by_moves :
      {one other : ℕ} {m : Step}
      → ((k' : Conn)
          → (k'.ssl.hs_state ≡ one) ⊎ (k'.ssl.hs_state ≡ other)
          → Switch k.ssl.hs_state k'.ssl.hs_state)
      → one < 255
      → other < 255
      → To one other c m
      → Goes (λ k' rc' rest. Dispatched hash k c k' rest) m
  by_moves f lt lt' = Goes-map (λ k' rc' rest w. record {
    switch = f k' w.state;
    shorter = w.shorter;
    proven = λ e. absurd (two w.state (omega arith) (omega arith));
  })
    where
      two : {x one other : ℕ} → (x ≡ one) ⊎ (x ≡ other) → x ≢ one → x ≢ other → ⊥
      two (inl e) p q = p e
      two (inr e) p q = q e

  eq_of : (x : ℕ) → (k.ssl.hs_state == x) ≡ true → k.ssl.hs_state ≡ x
  eq_of x h = ground arith

  hello :
      {k' : Conn} {rc' : Rc} {rest : List ℕ}
      → (k.ssl.hs_state == client_hello) ≡ true
      → HelloNext rc' k' rest
      → Dispatched hash k c k' rest
  hello e w = record {
    switch = on_hello (eq_of _ e) w.next;
    shorter = omega (arith, ap length w.whole);
    proven = λ d. absurd (omega (arith, w.next));
  }

  dispatch-Dispatched :
      Goes (λ k' rc' rest. Dispatched hash k c k' rest) (dispatch env hash k rc n c)
  unfolding dispatch
  dispatch-Dispatched =
      Goes-test (k.ssl.hs_state == client_hello)
        (λ e. Goes-map (λ k' rc' rest w. hello e w) (handle_client_hello-HelloNext env k c))
        λ _.
          Goes-test (k.ssl.hs_state == client_key_exchange)
            (λ e.
              by_moves (λ k' w. on_key (eq_of _ e) (one_of w)) (omega arith) (omega arith)
                (handle_client_key_exchange-To env k rc n c))
            λ _.
              Goes-test (k.ssl.hs_state == finished)
                (λ e.
                  Goes-map
                    (λ k' rc' rest w. record {
                      switch = on_finished (eq_of _ e) (one_of w.0.state);
                      shorter = w.0.shorter;
                      proven = λ _. w.1;
                    })
                    (handle_finished-To hash k rc n c))
                λ _.
                  Goes-test (k.ssl.hs_state == hello_request)
                    (λ e.
                      Goes-map
                        (λ k' rc' rest w. record {
                          switch =
                              on_request (eq_of _ e) (ap (λ j. j.ssl.hs_state) w.0 ∙ eq_of _ e);
                          shorter = w.1;
                          proven = λ d.
                              absurd
                                (omega (arith, eq_of _ e, ap (λ (j : Conn). j.ssl.hs_state) w.0));
                        })
                        (handle_hello_request-To k c))
                    λ _.
                      Goes-test (k.ssl.hs_state == server_hello)
                        (λ e.
                          by_moves (λ k' w. on_answer (eq_of _ e) w) (omega arith) (omega arith)
                            (handle_server_hello-To env k rc c))
                        λ _.
                          Goes-test (k.ssl.hs_state == certificate)
                            (λ e.
                              by_moves (λ k' w. on_certificate (eq_of _ e) w) (omega arith)
                                (omega arith) (handle_certificate-To env k rc c))
                            λ _.
                              Goes-test (k.ssl.hs_state == server_hello_done)
                                (λ e.
                                  by_moves (λ k' w. on_done (eq_of _ e) (one_of w)) (omega arith)
                                    (omega arith) (handle_server_hello_done-To k n c))
                                λ _.
                                  Goes-test (k.ssl.hs_state == certificate_request)
                                    (λ e.
                                      by_moves (λ k' w. on_cert_request (eq_of _ e) (one_of w))
                                        (omega arith) (omega arith)
                                        (handle_certificate_request-To k rc n c))
                                    (λ _. stopped)

Switch-Transition : {h h2 h' : ℕ} → h2 ≡ h → Switch h2 h' → Transition h h'
Switch-Transition e (on_hello p q) = greeted (inl (sym e ∙ p)) q
Switch-Transition e (on_key p q) = keyed (sym e ∙ p) q
Switch-Transition e (on_finished p q) = completed (sym e ∙ p) q
Switch-Transition e (on_request p q) = called_back (inr (sym e ∙ p)) q
Switch-Transition e (on_answer p q) = answered (sym e ∙ p) q
Switch-Transition e (on_certificate p q) = certified (sym e ∙ p) q
Switch-Transition e (on_done p q) = invited (sym e ∙ p) q
Switch-Transition e (on_cert_request p q) = asked (inr (sym e ∙ p)) q

Switch-greet :
    {h2 h' : ℕ} → h2 ≡ client_hello → Switch h2 h' → (h' ≡ finished) ⊎ (h' ≡ client_key_exchange)
Switch-greet e (on_hello p q) = q
Switch-greet e (on_key p q) = absurd (omega arith)
Switch-greet e (on_finished p q) = absurd (omega arith)
Switch-greet e (on_request p q) = absurd (omega arith)
Switch-greet e (on_answer p q) = absurd (omega arith)
Switch-greet e (on_certificate p q) = absurd (omega arith)
Switch-greet e (on_done p q) = absurd (omega arith)
Switch-greet e (on_cert_request p q) = absurd (omega arith)

Switch-ask : {h2 h' : ℕ} → h2 ≡ certificate_request → Switch h2 h' → h' ≡ server_hello_done
Switch-ask e (on_hello p q) = absurd (omega arith)
Switch-ask e (on_key p q) = absurd (omega arith)
Switch-ask e (on_finished p q) = absurd (omega arith)
Switch-ask e (on_request p q) = absurd (omega arith)
Switch-ask e (on_answer p q) = absurd (omega arith)
Switch-ask e (on_certificate p q) = absurd (omega arith)
Switch-ask e (on_done p q) = absurd (omega arith)
Switch-ask e (on_cert_request p q) = q

Switch-call : {h2 h' : ℕ} → h2 ≡ hello_request → Switch h2 h' → h' ≡ hello_request
Switch-call e (on_hello p q) = absurd (omega arith)
Switch-call e (on_key p q) = absurd (omega arith)
Switch-call e (on_finished p q) = absurd (omega arith)
Switch-call e (on_request p q) = q
Switch-call e (on_answer p q) = absurd (omega arith)
Switch-call e (on_certificate p q) = absurd (omega arith)
Switch-call e (on_done p q) = absurd (omega arith)
Switch-call e (on_cert_request p q) = absurd (omega arith)

Entry-Transition : {h h2 h' : ℕ} → Entry h h2 → Switch h2 h' → Transition h h'
Entry-Transition (same e) s = Switch-Transition e s
Entry-Transition (greet a b) s = greeted (inr a) (Switch-greet b s)
Entry-Transition (ask a b) s = asked (inl a) (Switch-ask b s)
Entry-Transition (call a b) s = called_back (inl a) (Switch-call b s)

Switch-done : {h h' : ℕ} → Switch h h' → h' ≡ hs_done → h ≡ finished
Switch-done (on_hello p q) d = absurd (omega arith)
Switch-done (on_key p q) d = absurd (omega arith)
Switch-done (on_finished p q) d = p
Switch-done (on_request p q) d = absurd (omega arith)
Switch-done (on_answer p q) d = absurd (omega arith)
Switch-done (on_certificate p q) d = absurd (omega arith)
Switch-done (on_done p q) d = absurd (omega arith)
Switch-done (on_cert_request p q) d = absurd (omega arith)

-- Where the body of a message begins, behind the three bytes of its length if it has one.
abbrev pub body_of : Conn → List ℕ → List ℕ
body_of k c = if leb 3 k.ssl.rec.maj_ver then drop 3 c else c

-- What an accepted message of type `t` does: the state moves along `Transition`, bytes are used
-- up, and the handshake is done only by a Finished message on a secure connection, whose body is
-- the hash of the messages before it.
pub record Stepped (env : Env) (k : Conn) (t : ℕ) (c : List ℕ) (k' : Conn) (rest : List ℕ)
    : Type 0 where
  pub moved : Transition k.ssl.hs_state k'.ssl.hs_state
  pub shorter : length rest ≤ length c
  pub proven :
      k'.ssl.hs_state ≡ hs_done
      → (k.ssl.hs_state ≡ finished) × (t ≡ finished) × Authentic (snapshot env k) k (body_of k c)

module _ (env : Env) (k k2 : Conn) (t : ℕ) (c : List ℕ) (into : Entered k t k2) where
  enter :
      (bytes : List ℕ) (d : List ℕ) {k' : Conn} {rest : List ℕ}
      → length d ≤ length c
      → d ≡ body_of k c
      → Dispatched (snapshot env k2) (add_hash bytes k2) d k' rest
      → Stepped env k t c k' rest
  enter bytes d {k'} le body w = record {
    moved = Entry-Transition into.entry w.switch;
    shorter = omega (arith, w.shorter);
    proven = λ e.
        let at_end = into.kept (Switch-done w.switch e) in
        let proof = w.proven e in
        (
          ap (λ j. j.ssl.hs_state) (sym at_end.0) ∙ Switch-done w.switch e,
          at_end.1,
          record {
            secure = ap (λ j. j.ssl.flags.read_secure) (sym at_end.0) ∙ proof.secure;
            present = subst (λ x. 36 ≤ length x) body proof.present;
            matches =
                subst (λ x. same_bytes 36 x (snapshot env k) ≡ true) body
                  (subst (λ j. same_bytes 36 d (snapshot env j) ≡ true) at_end.0 proof.matches);
          },
        );
  }

  read_v3-Stepped :
      (rc : Rc)
      → leb 3 k.ssl.rec.maj_ver ≡ true
      → Goes (λ k' rc' rest. Stepped env k t c k' rest) (read_v3 env k2 rc t c)
  unfolding read_v3
  read_v3-Stepped rc new = by_length c refl
    where
      by_length :
          (d : List ℕ)
          → d ≡ c
          → Goes (λ k' rc' rest. Stepped env k t c k' rest) (read_v3 env k2 rc t d)
      by_length [] e = stopped
      by_length (x ∷ []) e = stopped
      by_length (x ∷ y ∷ []) e = stopped
      by_length (x ∷ y ∷ z ∷ d) e = Goes-if (ltb (length d) (x * 2 ^ 16 + y * 2 ^ 8 + z)) stopped (
          Goes-map
            (λ k' rc' rest w. enter _ d (omega (arith, ap length e)) (rw new (ap (drop 3) e)) w)
            (dispatch-Dispatched env (snapshot env k2) _ rc _ d))

  read_header-Stepped :
      (inbuf : List ℕ) (rc : Rc)
      → Goes (λ k' rc' rest. Stepped env k t c k' rest) (read_header env inbuf k2 rc t c)
  unfolding read_header
  read_header-Stepped inbuf rc =
      Goes-test (leb 3 k2.ssl.rec.maj_ver)
        (λ new. read_v3-Stepped rc (ap (λ r. leb 3 r.maj_ver) (sym into.same_rec) ∙ new))
        λ old.
          Goes-test (k2.ssl.rec.maj_ver == 2)
            (λ _.
              Goes-map
                (λ k' rc' rest w.
                  enter inbuf c (omega arith)
                    (rw (ap (λ r. leb 3 r.maj_ver) (sym into.same_rec) ∙ old)) w)
                (dispatch-Dispatched env (snapshot env k2) (add_hash inbuf k2) rc _ c))
            (λ _. stopped)

-- An accepted message moves the handshake along the protocol's order, uses up its bytes, and
-- completes the handshake only as an authentic Finished message.
pub parse_message-Stepped :
    (env : Env) (inbuf : List ℕ) (k k' : Conn) (rc rc' : Rc) (t : ℕ) (c rest : List ℕ)
    → parse_message env inbuf k rc (t ∷ c) ≡ continue k' rc' rest
    → Stepped env k t c k' rest
parse_message-Stepped env inbuf k k' rc rc' t c rest h =
    Goes-continue
      (subst (Goes (λ k' rc' rest. Stepped env k t c k' rest)) h (admitted (admit_type k t) refl))
  where
    admitted :
        (o : Option Conn)
        → admit_type k t ≡ o
        → Goes (λ k' rc' rest. Stepped env k t c k' rest) (parse_message env inbuf k rc (t ∷ c))
    admitted none e = unfold parse_message in rw (parse_message, e) stopped
    admitted (some k1) e =
        unfold parse_message in
        rw (parse_message, e)
          (read_header-Stepped env k (begin_hello k1 t) t c (admit_type-Entered k k1 t e) inbuf rc)
