-- ===== src/Handshake/Certificates.antt =====
-- Where the client's messages with lists of certificates or names lead.
use robin_mesh_v.Prelude.{
  ℕ, zero, suc, ◌+◌, ◌-◌, ◌*◌, ◌^◌, Bool, true, false, ◌&&◌, not, Option, none, some, List, [], ◌∷◌,
  ltb, ◌==◌, if◌then◌else◌, length, take, drop, ◌++◌, ◌≡◌, refl, arith, inl, inr, ◌⊎◌, ◌≤◌,
}
use robin_mesh_v.Handshake.Base.{Env, Conn, Rc, client_key_exchange, finished, server_hello_done}
use robin_mesh_v.Handshake.Client.{
  handle_certificate, check_chain, user_verdict, end_verdict, after_chain, with_premaster,
  read_certificates, after_names, read_chain, Chain, chain, bad_chain, overread,
  handle_server_hello_done, handle_certificate_request, read_authorities, read_names, stored_certs,
  accepts_rsa,
}
use robin_mesh_v.Handshake.Hello.{goes, stopped, faulted, Goes-if}
use robin_mesh_v.Handshake.Moves.{To, To-part, drop_shorter}

-- The rest behind a chain of certificates, or of names.
data Rest (c : List ℕ) : Chain → Type 0 where
  rest_of : {certs : List (List ℕ)} {d : List ℕ} → length d ≤ length c → Rest c (chain certs d)
  no_rest : {alert : ℕ} {certs : List (List ℕ)} → Rest c (bad_chain alert certs)
  outside : Rest c overread

Rest-part : (c d : List ℕ) {x : Chain} → length d ≤ length c → Rest d x → Rest c x
Rest-part c d le (rest_of h) = rest_of (omega arith)
Rest-part c d le no_rest = no_rest
Rest-part c d le outside = outside

Rest-if : {c : List ℕ} {x y : Chain} (b : Bool) → Rest c x → Rest c y → Rest c (if b then x else y)
Rest-if true h k = h
Rest-if false h k = k

read_chain-Rest :
    (env : Env) (fuel left : ℕ) (certs : List (List ℕ)) (c : List ℕ)
    → Rest c (read_chain env fuel left certs c)
unfolding read_chain
read_chain-Rest env zero left certs c = rest_of (omega arith)
read_chain-Rest env (suc fuel) left certs [] = Rest-if (left == 0) (rest_of (omega arith)) outside
read_chain-Rest env (suc fuel) left certs (x ∷ []) =
    Rest-if (left == 0) (rest_of (omega arith)) outside
read_chain-Rest env (suc fuel) left certs (x ∷ y ∷ []) =
    Rest-if (left == 0) (rest_of (omega arith)) outside
read_chain-Rest env (suc fuel) left certs (x ∷ y ∷ z ∷ c) =
    Rest-if (left == 0) (rest_of (omega arith)) (
      Rest-if (ltb (length c) n) no_rest (
        after (λ d. read_chain-Rest env fuel (left - (n + 3)) (certs ++ take n c ∷ []) d)
          (env.parse_cert (take n c))))
  where
    n : ℕ
    n = x * 2 ^ 16 + y * 2 ^ 8 + z

    after :
        ((d : List ℕ) → Rest d (read_chain env fuel (left - (n + 3)) (certs ++ take n c ∷ []) d))
        → (o : Option ℕ)
        → Rest (x ∷ y ∷ z ∷ c) (elim o [
          | none ↦ bad_chain 42 certs
          | some m ↦ read_chain env fuel (left - (n + 3)) (certs ++ take n c ∷ []) (drop m c)
        ])
    after more none = no_rest
    after more (some m) = Rest-part _ (drop m c) (omega (arith, drop_shorter m c)) (more (drop m c))

user_verdict-To :
    (k : Conn) (rc : Rc) (c : List ℕ) (o : Option Bool)
    → To server_hello_done client_key_exchange c (user_verdict k rc c o)
unfolding user_verdict
user_verdict-To k rc c none = stopped
user_verdict-To k rc c (some anon) =
    goes (record { state = role k.ssl.flags.server; shorter = omega arith })
  where
    role :
        (b : Bool)
        → ((if b then client_key_exchange else server_hello_done) ≡ server_hello_done)
          ⊎ ((if b then client_key_exchange else server_hello_done) ≡ client_key_exchange)
    role true = inr refl
    role false = inl refl

end_verdict-To :
    (env : Env) (k : Conn) (rc : Rc) (c : List ℕ) (o : Option Bool)
    → To server_hello_done client_key_exchange c (end_verdict env k rc c o)
unfolding end_verdict
end_verdict-To env k rc c none = stopped
end_verdict-To env k rc c (some valid) =
    Goes-if (not valid && not env.has_validator) stopped (user_verdict-To k rc c _)

after_chain-To :
    (env : Env) (k : Conn) (rc : Rc) (c : List ℕ) (x : Chain)
    → Rest c x
    → To server_hello_done client_key_exchange c (after_chain env k rc x)
unfolding after_chain check_chain
after_chain-To env k rc c (chain certs d) (rest_of le) = To-part _ _ c d le (
    Goes-if (not (env.validate_chain (stored_certs k certs))) stopped (end_verdict-To env _ rc d _))
after_chain-To env k rc c (bad_chain alert certs) r = stopped
after_chain-To env k rc c overread r = faulted

read_certificates-To :
    (env : Env) (k : Conn) (rc : Rc) (n : ℕ) (c : List ℕ)
    → To server_hello_done client_key_exchange c (read_certificates env k rc n c)
unfolding read_certificates
read_certificates-To env k rc n c = Goes-if (n == 0) stopped (
    Goes-if (ltb (length c) 3) stopped
      (after_chain-To env (with_premaster k) rc c _ (read_chain-Rest env n n [] c)))

pub handle_certificate-To :
    (env : Env) (k : Conn) (rc : Rc) (c : List ℕ)
    → To server_hello_done client_key_exchange c (handle_certificate env k rc c)
unfolding handle_certificate
handle_certificate-To env k rc [] = stopped
handle_certificate-To env k rc (x ∷ []) = stopped
handle_certificate-To env k rc (x ∷ y ∷ []) = stopped
handle_certificate-To env k rc (x ∷ y ∷ z ∷ c) =
    To-part _ _ (x ∷ y ∷ z ∷ c) c (omega arith) (read_certificates-To env k rc _ c)

pub handle_server_hello_done-To :
    (k : Conn) (n : ℕ) (c : List ℕ) → To finished finished c (handle_server_hello_done k n c)
unfolding handle_server_hello_done
handle_server_hello_done-To k n c =
    Goes-if (not (n == 0)) stopped (goes (record { state = inl refl; shorter = omega arith }))

read_names-Rest : (fuel left : ℕ) (c : List ℕ) → Rest c (read_names fuel left c)
unfolding read_names
read_names-Rest zero left c = rest_of (omega arith)
read_names-Rest (suc fuel) left [] = Rest-if (left == 0) (rest_of (omega arith)) outside
read_names-Rest (suc fuel) left (x ∷ []) = Rest-if (left == 0) (rest_of (omega arith)) outside
read_names-Rest (suc fuel) left (x ∷ y ∷ c) =
    let n = x * 2 ^ 8 + y in
    Rest-if (left == 0) (rest_of (omega arith)) (
      Rest-if (ltb (length c) n) no_rest (
        Rest-part (x ∷ y ∷ c) (drop n c) (omega (arith, drop_shorter n c))
          (read_names-Rest fuel (left - (2 + n)) (drop n c))))

after_names-To :
    (k : Conn) (rc : Rc) (c : List ℕ) (x : Chain)
    → Rest c x
    → To server_hello_done server_hello_done c (after_names k rc x)
unfolding after_names
after_names-To k rc c (chain certs d) (rest_of le) =
    goes (record { state = inl refl; shorter = le })
after_names-To k rc c (bad_chain alert certs) r = stopped
after_names-To k rc c overread r = faulted

read_authorities-To :
    (k : Conn) (rc : Rc) (c : List ℕ)
    → To server_hello_done server_hello_done c (read_authorities k rc c)
unfolding read_authorities
read_authorities-To k rc [] = faulted
read_authorities-To k rc (x ∷ []) = faulted
read_authorities-To k rc (x ∷ y ∷ c) =
    let n = x * 2 ^ 8 + y in
    Goes-if (ltb (length c) n) stopped
      (To-part _ _ (x ∷ y ∷ c) c (omega arith) (after_names-To _ rc c _ (read_names-Rest n n c)))

pub handle_certificate_request-To :
    (k : Conn) (rc : Rc) (n : ℕ) (c : List ℕ)
    → To server_hello_done server_hello_done c (handle_certificate_request k rc n c)
unfolding handle_certificate_request
handle_certificate_request-To k rc n [] = Goes-if (ltb n 4) stopped faulted
handle_certificate_request-To k rc n (m ∷ c) = Goes-if (ltb n 4) stopped (
    Goes-if (ltb (length c) m) stopped (
      Goes-if (not (accepts_rsa (take m c))) stopped (
        To-part _ _ (m ∷ c) (drop m c) (omega (arith, drop_shorter m c))
          (read_authorities-To k rc (drop m c)))))
