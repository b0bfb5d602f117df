-- ===== src/Handshake/Moves.antt =====
-- Where each message after the ClientHello leads, and how many bytes it leaves.
use robin_mesh_v.Prelude.{
  ℕ, Bool, true, false, ◌||◌, not, Option, none, some, List, [], ◌∷◌, ltb, ◌==◌, if◌then◌else◌,
  length, drop, ◌≡◌, refl, arith, inl, inr, ◌⊎◌, ◌∙◌, ap, sym, ◌≤◌, length-drop,
}
use robin_mesh_v.Cipher.{CipherSpec, get_cipher_spec}
use robin_mesh_v.Session.{same_bytes}
use robin_mesh_v.Handshake.Base.{Env, Conn, Rc, Step, finished, hs_done, certificate}
use robin_mesh_v.Handshake.KeyExchange.{
  accept_premaster, handle_client_key_exchange, handle_finished, version_ok,
}
use robin_mesh_v.Handshake.Client.{
  handle_hello_request, handle_server_hello, end_server_hello, own_suite, new_suite, choose_suite,
  read_suite, read_server_session,
}
use robin_mesh_v.Handshake.Hello.{Goes, goes, stopped, faulted, Goes-if, Goes-map}

-- The state is one of two, and no byte was made up.
pub record Moves (one other : ℕ) (c : List ℕ) (k' : Conn) (rest : List ℕ) : Type 0 where
  pub state : (k'.ssl.hs_state ≡ one) ⊎ (k'.ssl.hs_state ≡ other)
  pub shorter : length rest ≤ length c

abbrev pub To : ℕ → ℕ → List ℕ → Step → Type 0
To one other c = Goes (λ k' rc rest. Moves one other c k' rest)

-- Bytes left of a part are left of the whole.
pub To-part :
    (one other : ℕ) (c d : List ℕ) {m : Step}
    → length d ≤ length c
    → To one other d m
    → To one other c m
To-part one other c d le =
    Goes-map (λ k rc rest w. record { state = w.state; shorter = omega (arith, w.shorter) })

pub drop_shorter : (n : ℕ) (c : List ℕ) → length (drop n c) ≤ length c
drop_shorter n c = omega (arith, length-drop n c)

accept_premaster-To :
    (env : Env) (k : Conn) (rc : Rc) (o : Option (List ℕ)) (c : List ℕ)
    → To finished finished c (accept_premaster env k rc o c)
unfolding accept_premaster
accept_premaster-To env k rc none c = stopped
accept_premaster-To env k rc (some m) c = Goes-if (not (length m == 48)) stopped (
    Goes-if (not (version_ok k.ssl m)) stopped
      (goes (record { state = inl refl; shorter = omega arith })))

pub handle_client_key_exchange-To :
    (env : Env) (k : Conn) (rc : Rc) (n : ℕ) (c : List ℕ)
    → To finished finished c (handle_client_key_exchange env k rc n c)
unfolding handle_client_key_exchange
handle_client_key_exchange-To env k rc n c =
    Goes-if (ltb (length c) n) stopped
      (To-part _ _ c (drop n c) (drop_shorter n c) (accept_premaster-To env _ rc _ (drop n c)))

pub Goes-test :
    {P : Conn → Rc → List ℕ → Type 0} {m n : Step} (b : Bool)
    → (b ≡ true → Goes P m)
    → (b ≡ false → Goes P n)
    → Goes P (if b then m else n)
Goes-test true h g = h refl
Goes-test false h g = g refl

-- A Finished message is accepted while reading is secure, if its 36 bytes are the hash.
pub record Authentic (hash : List ℕ) (k : Conn) (c : List ℕ) : Type 0 where
  pub secure : k.ssl.flags.read_secure ≡ true
  pub present : 36 ≤ length c
  pub matches : same_bytes 36 c hash ≡ true

pub handle_finished-To :
    (hash : List ℕ) (k : Conn) (rc : Rc) (n : ℕ) (c : List ℕ)
    → Goes
        (λ k' rc' rest. Moves hs_done hs_done c k' rest × Authentic hash k c)
        (handle_finished hash k rc n c)
unfolding handle_finished
handle_finished-To hash k rc n c =
    Goes-test (not k.ssl.flags.read_secure) (λ e. stopped)
      λ secure.
        Goes-test (not (n == 36)) (λ e. stopped)
          λ sized.
            Goes-test (ltb (length c) n) (λ e. stopped)
              λ present.
                Goes-test (not (same_bytes n c hash)) (λ e. stopped)
                  λ same.
                    let n_is : n ≡ 36 = ground arith in
                    let secure' : k.ssl.flags.read_secure ≡ true = ground arith in
                    let same' : same_bytes n c hash ≡ true = ground arith in
                    goes (
                      record { state = inl refl; shorter = drop_shorter n c },
                      record {
                        secure = secure';
                        present = ground arith;
                        matches = ap (λ j. same_bytes j c hash) (sym n_is) ∙ same';
                      },
                    )

pub handle_hello_request-To :
    (k : Conn) (c : List ℕ)
    → Goes (λ k' rc rest. (k' ≡ k) × (length rest ≤ length c)) (handle_hello_request k c)
unfolding handle_hello_request
handle_hello_request-To k [] = goes (refl, omega arith)
handle_hello_request-To k (x ∷ c) = stopped

end_server_hello-To :
    (env : Env) (k : Conn) (rc : Rc) (c : List ℕ)
    → To finished certificate c (end_server_hello env k rc c)
unfolding end_server_hello
end_server_hello-To env k rc [] = stopped
end_server_hello-To env k rc (x ∷ c) = Goes-if (not (x == 0)) stopped (
    Goes-if k.ssl.flags.resumed (goes (record { state = inl refl; shorter = omega arith }))
      (goes (record { state = inr refl; shorter = omega arith })))

own_suite-To :
    (env : Env) (k : Conn) (rc : Rc) (id : ℕ) (o : Option CipherSpec) (c : List ℕ)
    → To finished certificate c (own_suite env k rc id o c)
unfolding own_suite
own_suite-To env k rc id none c = faulted
own_suite-To env k rc id (some s) c = Goes-if (s.id == id) (end_server_hello-To env k rc c) stopped

new_suite-To :
    (env : Env) (k : Conn) (rc : Rc) (o : Option CipherSpec) (c : List ℕ)
    → To finished certificate c (new_suite env k rc o c)
unfolding new_suite
new_suite-To env k rc none c = stopped
new_suite-To env k rc (some s) c = end_server_hello-To env _ rc c

choose_suite-To :
    (env : Env) (k : Conn) (rc : Rc) (id : ℕ) (c : List ℕ)
    → To finished certificate c (choose_suite env k rc id c)
unfolding choose_suite
choose_suite-To env k rc id c =
    Goes-if k.ssl.flags.resumed (own_suite-To env k rc id k.ssl.cipher c)
      (new_suite-To env k rc (get_cipher_spec id) c)

read_suite-To :
    (env : Env) (k : Conn) (rc : Rc) (c : List ℕ)
    → To finished certificate c (read_suite env k rc c)
unfolding read_suite
read_suite-To env k rc [] = stopped
read_suite-To env k rc (x ∷ []) = stopped
read_suite-To env k rc (x ∷ y ∷ c) =
    To-part _ _ (x ∷ y ∷ c) c (omega arith) (choose_suite-To env k rc _ c)

read_server_session-To :
    (env : Env) (k : Conn) (rc : Rc) (c : List ℕ)
    → To finished certificate c (read_server_session env k rc c)
unfolding read_server_session
read_server_session-To env k rc [] = stopped
read_server_session-To env k rc (n ∷ c) = Goes-if (ltb 32 n || ltb (length c) n) stopped (
    To-part _ _ (n ∷ c) (drop n c) (omega (arith, drop_shorter n c))
      (read_suite-To env _ rc (drop n c)))

pub handle_server_hello-To :
    (env : Env) (k : Conn) (rc : Rc) (c : List ℕ)
    → To finished certificate c (handle_server_hello env k rc c)
unfolding handle_server_hello
handle_server_hello-To env k rc [] = stopped
handle_server_hello-To env k rc (x ∷ []) = stopped
handle_server_hello-To env k rc (major ∷ minor ∷ c) =
    Goes-if (not (major == k.ssl.maj_ver)) stopped (
      Goes-if (ltb (length c) 33) stopped (
        To-part _ _ (major ∷ minor ∷ c) (drop 32 c) (omega (arith, drop_shorter 32 c))
          (read_server_session-To env _ rc (drop 32 c))))
