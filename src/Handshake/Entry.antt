-- ===== src/Handshake/Entry.antt =====
-- Which message types the parser lets through in which state.
use robin_mesh_v.Prelude.{
  ℕ, true, false, ◌&&◌, ◌||◌, some, [], ◌==◌, ◌≡◌, refl, arith, Bool-cases, inl, inr,
}
use mathlib.Core.Path.{subst}
use robin_mesh_v.Session.{clear_session}
use robin_mesh_v.Handshake.{admit_type, begin_hello}
use robin_mesh_v.Handshake.Base.{
  Conn, set_ssl, set_flags, set_state, reset_context, hello_request, client_hello,
  certificate_request, server_hello_done, finished, hs_done,
}

-- The state that the switch meets, after the checks on the message's type.
pub data Entry (h h2 : ℕ) : Type 0 where
  same : h2 ≡ h → Entry h h2
  greet : h ≡ hs_done → h2 ≡ client_hello → Entry h h2
  ask : h ≡ server_hello_done → h2 ≡ certificate_request → Entry h h2
  call : h ≡ hs_done → h2 ≡ hello_request → Entry h h2

pub record Entered (k : Conn) (t : ℕ) (k2 : Conn) : Type 0 where
  pub entry : Entry k.ssl.hs_state k2.ssl.hs_state
  pub kept : k2.ssl.hs_state ≡ finished → (k2 ≡ k) × (t ≡ finished)
  pub same_rec : k2.ssl.rec ≡ k.ssl.rec

rec-reset_context : (k : Conn) → (reset_context k).ssl.rec ≡ k.ssl.rec
unfolding reset_context clear_session
rec-reset_context k = ground arith

begin_other : (k : Conn) (t : ℕ) → (t == client_hello) ≡ false → begin_hello k t ≡ k
unfolding begin_hello
begin_other k t e = rw e

begin_again :
    (k : Conn) (t : ℕ)
    → (t == client_hello) ≡ true
    → (k.ssl.hs_state == hs_done) ≡ true
    → begin_hello k t ≡ set_state t (reset_context (set_ssl k (record (k.ssl) { hs_hash = [] })))
unfolding begin_hello
begin_again k t e d = rw (e, d)

begin_first :
    (k : Conn) (t : ℕ)
    → (t == client_hello) ≡ true
    → (k.ssl.hs_state == hs_done) ≡ false
    → begin_hello k t ≡ set_ssl k (record (k.ssl) { hs_hash = [] })
unfolding begin_hello
begin_first k t e d = rw (e, d)

expected_Entered :
    (k : Conn) (t : ℕ)
    → (t == k.ssl.hs_state || (t == client_hello && k.ssl.hs_state == hs_done)) ≡ true
    → Entered k t (begin_hello k t)
expected_Entered k t e = elim (Bool-cases (t == client_hello)) [
  | inr other ↦
      rw (begin_other k t other)
        (record { entry = same refl; kept = λ f. (refl, ground arith); same_rec = refl })
  | inl hello ↦ elim (Bool-cases (k.ssl.hs_state == hs_done)) [
    | inl over ↦ rw (begin_again k t hello over) (record {
      entry = greet (ground arith) (ground arith);
      kept = λ f. absurd (ground arith);
      same_rec = rec-reset_context (set_ssl k (record (k.ssl) { hs_hash = [] }));
    })
    | inr open' ↦
        rw (begin_first k t hello open')
          (record { entry = same refl; kept = λ f. absurd (ground arith); same_rec = refl })
  ]
]

abbrev asked_conn : Conn → Conn
asked_conn k =
    set_state certificate_request (set_flags k (record (k.ssl.flags) { client_auth = true }))

pub admit_type-Entered :
    (k k1 : Conn) (t : ℕ) → admit_type k t ≡ some k1 → Entered k t (begin_hello k1 t)
unfolding admit_type
admit_type-Entered k k1 t h =
    elim (Bool-cases (t == k.ssl.hs_state || (t == client_hello && k.ssl.hs_state == hs_done))) [
      | inl expected ↦
          let is : k ≡ k1 = ground arith in
          subst (λ j. Entered k t (begin_hello j t)) is (expected_Entered k t expected)
      | inr odd ↦
          elim (Bool-cases (t == certificate_request && k.ssl.hs_state == server_hello_done)) [
            | inl asked ↦
                let is : asked_conn k ≡ k1 = ground arith in
                subst (λ j. Entered k t (begin_hello j t)) is
                  (rw (begin_other (asked_conn k) t (ground arith)) (record {
                    entry = ask (ground arith) refl;
                    kept = λ f. absurd (omega (arith, f));
                    same_rec = refl;
                  }))
            | inr other ↦
                let is_call : (t == hello_request) ≡ true = ground arith in
                let is : set_state t (reset_context k) ≡ k1 = ground arith in
                subst (λ j. Entered k t (begin_hello j t)) is
                  (rw (begin_other (set_state t (reset_context k)) t (ground arith)) (record {
                    entry = call (ground arith) (ground arith);
                    kept = λ f. absurd (ground arith);
                    same_rec = rec-reset_context k;
                  }))
          ]
    ]
