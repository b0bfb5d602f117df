-- ===== src/Handshake/Hello.antt =====
-- What a ClientHello does to the connection when it is accepted.
use robin_mesh_v.Prelude.{
  ℕ, ◌+◌, ◌*◌, ◌^◌, Bool, true, false, ◌&&◌, ◌||◌, not, Option, none, some, List, [], ◌∷◌, ltb,
  ◌==◌, if◌then◌else◌, length, take, drop, ◌++◌, ◌≡◌, refl, arith, Bool-cases, inl, inr, ◌≢◌, ◌⊎◌,
  ◌%◌, ◌∙◌, ap,
}
use robin_mesh_v.Cipher.{CipherSpec}
use robin_mesh_v.Session.{resume_session}
use robin_mesh_v.Session.Resume.{resume_session_iff}
use robin_mesh_v.Handshake.Base.{
  Env, Conn, Rc, process_data, Step, continue, stop, fault, fail, set_ssl, client_key_exchange,
  finished,
}
use robin_mesh_v.Handshake.ClientHello.{
  end_hello, skip_extensions, skip_compression, check_suite, read_suites, look_up, read_session_id,
  read_random, end_v2, read_v2_body, read_v2, handle_client_hello, set_cipher,
}

-- `P` holds of the connection that goes on behind a message, if it does.
pub data Goes (P : Conn → Rc → List ℕ → Type 0) : Step → Type 0 where
  goes : {k : Conn} {rc : Rc} {c : List ℕ} → P k rc c → Goes P (continue k rc c)
  stopped : {k : Conn} → Goes P (stop k)
  faulted : Goes P fault

pub Goes-continue :
    {P : Conn → Rc → List ℕ → Type 0} {k : Conn} {rc : Rc} {c : List ℕ}
    → Goes P (continue k rc c)
    → P k rc c
Goes-continue (goes p) = p

pub Goes-map :
    {P Q : Conn → Rc → List ℕ → Type 0} {m : Step}
    → ((k : Conn) (rc : Rc) (c : List ℕ) → P k rc c → Q k rc c)
    → Goes P m
    → Goes Q m
Goes-map f (goes p) = goes (f _ _ _ p)
Goes-map f stopped = stopped
Goes-map f faulted = faulted

-- The connection `k'` that an accepted hello makes of `k`: resumed connections expect Finished, the
-- others the key exchange; the master secret is that of `k`, and the hello was the whole record.
pub record HelloEnd (k k' : Conn) (rc : Rc) (rest : List ℕ) : Type 0 where
  pub next : k'.ssl.hs_state ≡ (if k.ssl.flags.resumed then finished else client_key_exchange)
  pub secret : k'.ssl.master_secret ≡ k.ssl.master_secret
  pub same_flags : k'.ssl.flags ≡ k.ssl.flags
  pub answer : rc ≡ process_data
  pub whole : rest ≡ []

end_hello-HelloEnd : (k : Conn) (c : List ℕ) → Goes (HelloEnd k) (end_hello k c)
unfolding end_hello
end_hello-HelloEnd k [] =
    goes (record { next = refl; secret = refl; same_flags = refl; answer = refl; whole = refl })
end_hello-HelloEnd k (x ∷ c) = stopped

-- A test that fails the message, or goes on; and two ways to go on.
pub Goes-if :
    {P : Conn → Rc → List ℕ → Type 0} {m n : Step} (b : Bool)
    → Goes P m
    → Goes P n
    → Goes P (if b then m else n)
Goes-if true h g = h
Goes-if false h g = g

skip_extensions-HelloEnd : (k : Conn) (c : List ℕ) → Goes (HelloEnd k) (skip_extensions k c)
unfolding skip_extensions
skip_extensions-HelloEnd k [] = end_hello-HelloEnd k []
skip_extensions-HelloEnd k (x ∷ []) = stopped
skip_extensions-HelloEnd k (x ∷ y ∷ c) =
    Goes-if (ltb (length c) (x * 2 ^ 8 + y)) stopped (end_hello-HelloEnd k _)

skip_compression-HelloEnd : (k : Conn) (c : List ℕ) → Goes (HelloEnd k) (skip_compression k c)
unfolding skip_compression
skip_compression-HelloEnd k [] = stopped
skip_compression-HelloEnd k (n ∷ c) =
    Goes-if (ltb (length c) n) stopped
      (Goes-if (k.ssl.req_min_ver == 0 && not (n == 1)) stopped (skip_extensions-HelloEnd k _))

-- The suite is not among what a hello's end keeps.
with_cipher :
    {k k' : Conn} {rc : Rc} {rest : List ℕ} (c : Option CipherSpec)
    → HelloEnd (set_cipher c k) k' rc rest
    → HelloEnd k k' rc rest
with_cipher c e = record {
  next = e.next;
  secret = e.secret;
  same_flags = e.same_flags;
  answer = e.answer;
  whole = e.whole;
}

check_suite-HelloEnd :
    (k : Conn) (o : Option (Option CipherSpec × ℕ)) (c : List ℕ)
    → Goes (HelloEnd k) (check_suite k o c)
unfolding check_suite
check_suite-HelloEnd k none c = faulted
check_suite-HelloEnd k (some (none, last)) c = stopped
check_suite-HelloEnd k (some (some s, last)) c = Goes-if (not (s.id == last) || last == 0) stopped (
    Goes-map (λ k' rc r e. with_cipher (some s) e)
      (skip_compression-HelloEnd (set_cipher (some s) k) c))

pub read_suites-HelloEnd : (k : Conn) (c : List ℕ) → Goes (HelloEnd k) (read_suites k c)
unfolding read_suites
read_suites-HelloEnd k [] = stopped
read_suites-HelloEnd k (x ∷ []) = stopped
read_suites-HelloEnd k (x ∷ y ∷ c) =
    Goes-if (x * 2 ^ 8 + y == 0 || (x * 2 ^ 8 + y) % 2 == 1) stopped
      (Goes-if (ltb (length c) (x * 2 ^ 8 + y)) stopped (check_suite-HelloEnd k _ _))

-- Where a hello leads: to Finished or to the key exchange, with an answer, at the record's end.
pub record HelloNext (rc : Rc) (k' : Conn) (rest : List ℕ) : Type 0 where
  pub next : (k'.ssl.hs_state ≡ finished) ⊎ (k'.ssl.hs_state ≡ client_key_exchange)
  pub answer : rc ≡ process_data
  pub whole : rest ≡ []

HelloEnd-HelloNext :
    (k k' : Conn) (rc : Rc) (rest : List ℕ) → HelloEnd k k' rc rest → HelloNext rc k' rest
HelloEnd-HelloNext k k' rc rest e = record {
  next = elim (Bool-cases k.ssl.flags.resumed) [
    | inl b ↦ inl (e.next ∙ rw b)
    | inr b ↦ inr (e.next ∙ rw b)
  ];
  answer = e.answer;
  whole = e.whole;
}

Next : Step → Type 0
Next = Goes (λ k rc c. HelloNext rc k c)

forget : (k : Conn) {m : Step} → Goes (HelloEnd k) m → Next m
unfolding Next
forget k g = Goes-map (HelloEnd-HelloNext k) g

read_session_id-Next :
    (env : Env) (k : Conn) (n : ℕ) (c : List ℕ) → Next (read_session_id env k n c)
unfolding read_session_id Next
read_session_id-Next env k n c =
    Goes-if (n == 0) (forget _ (read_suites-HelloEnd _ _))
      (Goes-if (ltb 32 n || ltb (length c) n) stopped (forget _ (read_suites-HelloEnd _ _)))

read_random-Next : (env : Env) (k : Conn) (c : List ℕ) → Next (read_random env k c)
unfolding read_random Next
read_random-Next env k c = go (drop 32 c)
  where
    k' : Conn
    k' = set_ssl k (record (k.ssl) { client_random = take 32 c })

    go : (d : List ℕ) → Next (elim d [ [] ↦ fail 47 k | n ∷ rest ↦ read_session_id env k' n rest ])
    go [] = stopped
    go (n ∷ rest) = read_session_id-Next env k' n rest

end_v2-Next : (k : Conn) (o : Option CipherSpec) (n : ℕ) (c : List ℕ) → Next (end_v2 k o n c)
unfolding end_v2 Next
end_v2-Next k none n c = stopped
end_v2-Next k (some s) n c = Goes-if (s.id == 0) stopped (forget _ (end_hello-HelloEnd _ _))

read_v2-Next : (k : Conn) (c : List ℕ) → Next (read_v2 k c)
unfolding read_v2 read_v2_body Next
read_v2-Next k (s1 ∷ s0 ∷ i1 ∷ i0 ∷ h1 ∷ h0 ∷ c) =
    Goes-if (s1 * 2 ^ 8 + s0 == 0 || not ((s1 * 2 ^ 8 + s0) % 3 == 0)) stopped (
      Goes-if (not (i0 == 0)) stopped (
        Goes-if (ltb (h1 * 2 ^ 8 + h0) 16 || ltb 32 (h1 * 2 ^ 8 + h0)) stopped (
          Goes-if (not (length c == (s1 * 2 ^ 8 + s0 + (h1 * 2 ^ 8 + h0)))) stopped
            (end_v2-Next _ _ _ _))))
read_v2-Next k [] = stopped
read_v2-Next k (a ∷ []) = stopped
read_v2-Next k (a ∷ b ∷ []) = stopped
read_v2-Next k (a ∷ b ∷ c ∷ []) = stopped
read_v2-Next k (a ∷ b ∷ c ∷ d ∷ []) = stopped
read_v2-Next k (a ∷ b ∷ c ∷ d ∷ e ∷ []) = stopped

-- Every accepted ClientHello leads to Finished or to the key exchange, asks for an answer, and ends
-- its record.
pub handle_client_hello-HelloNext :
    (env : Env) (k : Conn) (c : List ℕ)
    → Goes (λ k' rc rest. HelloNext rc k' rest) (handle_client_hello env k c)
unfolding handle_client_hello Next
handle_client_hello-HelloNext env k [] = stopped
handle_client_hello-HelloNext env k (x ∷ []) = stopped
handle_client_hello-HelloNext env k (major ∷ minor ∷ c) =
    Goes-if (ltb major 3) stopped
      (Goes-if (ltb 2 k.ssl.rec.maj_ver) (read_random-Next env _ c) (read_v2-Next _ c))

-- Looking up an id that the cache refuses leaves the mark of a resumed session as it was.
look_up_refused :
    (env : Env) (k : Conn)
    → (resume_session env.now k.ssl k.table).ret ≡ none
    → (resume_session env.now k.ssl k.table).ssl ≡ k.ssl
    → ((look_up env k).ssl.flags ≡ k.ssl.flags)
      × ((look_up env k).ssl.master_secret ≡ k.ssl.master_secret)
unfolding look_up
look_up_refused env k refused same =
    rw (look_up, refused) (ap (λ s. s.flags) same, ap (λ s. s.master_secret) same)

-- On a connection that still carries the mark of an earlier resumption, a hello with a session id
-- that the cache refuses leads, if it is accepted at all, to Finished without a key exchange, with
-- the master secret of before.
pub stale_resumption :
    (env : Env) (k : Conn) (n : ℕ) (c : List ℕ)
    → k.ssl.flags.resumed ≡ true
    → n ≢ 0
    → (let s = k.ssl in
        let asked = record s { session_id_len = n; session_id = take n c ++ drop n s.session_id } in
        (resume_session env.now asked k.table).ret ≡ none)
    → Goes
        (λ k' rc rest. (k'.ssl.hs_state ≡ finished) × (k'.ssl.master_secret ≡ k.ssl.master_secret))
        (read_session_id env k n c)
unfolding read_session_id
stale_resumption env k n c mark some_id refused =
    let asked = record (k.ssl) {
      session_id_len = n;
      session_id = take n c ++ drop n k.ssl.session_id;
    } in
    let kept =
      look_up_refused env (set_ssl k asked) refused
        ((resume_session_iff env.now asked k.table).1 refused) in
    let nonzero : (n == 0) ≡ false = ground arith in
    rw nonzero (
      Goes-if (ltb 32 n || ltb (length c) n) stopped (
        Goes-map (λ k' rc rest e. (e.next ∙ rw (kept.0, mark) refl, e.secret ∙ kept.1))
          (read_suites-HelloEnd (look_up env (set_ssl k asked)) (drop n c))))
