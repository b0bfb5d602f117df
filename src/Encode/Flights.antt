-- ===== src/Encode/Flights.antt =====
-- The flights of `sslEncodeResponse` and the room that they are tested for.
use robin_mesh_v.Prelude.{
  ℕ, ◌+◌, ◌-◌, ◌*◌, ◌≤◌, ◌<◌, ◌≡◌, refl, sym, ◌∙◌, subst, Bool, true, false, not, Option, none,
  some, List, [], arith, length, drop, ltb, leb, ◌==◌, if◌then◌else◌, some-injective,
}
use robin_mesh_v.Cipher.{CipherSpec}
use robin_mesh_v.Ssl.{Ssl}
use robin_mesh_v.Session.{Time, Result, register_session, fill_entry, choose_entry}
use robin_mesh_v.Handshake.Base.{Env, Conn, set_ssl, client_key_exchange, alert_none}
use robin_mesh_v.Handshake.KeyExchange.{derive_keys}
use robin_mesh_v.Record.{handshake_record}
use robin_mesh_v.Record.Base.{Buf, Encoded, Status}
use robin_mesh_v.Encode.{encode_response, hello_flight, hello_flight_size}
use robin_mesh_v.Encode.Base.{Sealer, mark_error, secure_write_additions, pad_len_pwr2, full_record}
use robin_mesh_v.Encode.Writers.{
  Local, make_random, total_length, write_server_hello, random_server_hello, finish_server_hello,
  register_hello, write_certificate, write_server_hello_done,
}
use robin_mesh_v.Encode.Room.{
  Sizes, mark_error-Goes, sizes, extra, Goes, crash, stop, write_record-Goes, and_then-Goes,
  on_success-Goes, Goes-full,
}

-- The sizes while writing: not secure, or those of a suite in the table.
pub data IsSuite : Sizes → Type 0 where
  bare : (mac block : ℕ) → IsSuite (false, (mac, block))
  stream_suite : (mac : ℕ) → IsSuite (true, (mac, 1))
  block_suite : IsSuite (true, (20, 8))

-- What a record grows by at most, with at most `pad` bytes of padding.
abbrev adds : Sizes → ℕ → ℕ
adds (false, _) pad = 0
adds (true, (mac, block)) pad = mac + (if leb block 1 then 0 else pad)

extra-adds : (c : Sizes) (m : ℕ) → IsSuite c → extra c m ≤ adds c 8
unfolding pad_len_pwr2
extra-adds c m (bare mac block) = omega arith
extra-adds c m (stream_suite mac) = omega arith
extra-adds c m block_suite = omega arith

-- A ServerHello with its longest session id has no more than two bytes of padding.
hello-adds : (c : Sizes) (n : ℕ) → IsSuite c → n ≤ 32 → n + extra c (42 + n) ≤ 32 + adds c 2
unfolding pad_len_pwr2
hello-adds c n (bare mac block) l = omega arith
hello-adds c n (stream_suite mac) l = omega arith
hello-adds c n block_suite l = omega arith

abbrev additions : Sizes → ℕ → ℕ
additions (false, _) n = 0
additions (true, (mac, block)) n = n * mac + n * (block - 1)

flight-adds : (c : Sizes) → IsSuite c → adds c 2 + adds c 8 + adds c 8 ≤ additions c 3
flight-adds c (bare mac block) = omega arith
flight-adds c (stream_suite mac) = omega arith
flight-adds c block_suite = omega arith

additions-secure : (s : Ssl) (n : ℕ) → secure_write_additions s n ≡ additions (sizes s) n
unfolding secure_write_additions
additions-secure s n = go s.flags.write_secure
  where
    go :
        (b : Bool)
        → (if b then n * s.en_mac_size + n * (s.en_block_size - 1) else 0)
          ≡ additions (b, (s.en_mac_size, s.en_block_size)) n
    go true = refl
    go false = refl

-- What a step may do to a connection besides: the sizes stay, and the session id stays short.
record Kept (k j : Conn) : Type 0 where
  same_sizes : sizes j.ssl ≡ sizes k.ssl
  short_id : k.ssl.session_id_len ≤ 32 → j.ssl.session_id_len ≤ 32

either : {A : Type 0} (P : A → Type 0) (b : Bool) (u v : A) → P u → P v → P (if b then u else v)
either P true u v p q = p
either P false u v p q = q

fill_entry-Kept :
    (k : Conn) (now : Time) (o : Option ℕ)
    → let r = fill_entry now k.ssl k.table o in Kept k (record { ssl = r.ssl; table = r.table })
unfolding fill_entry
fill_entry-Kept k now none = record { same_sizes = refl; short_id = λ l. l }
fill_entry-Kept k now (some i) = record { same_sizes = refl; short_id = λ l. omega arith }

module _ {X : Type 0} (w : Sealer X) (env : Env) (own : Local) where
  register_hello-Kept : (k : Conn) → Kept k (register_hello w env own k)
  unfolding register_hello register_session
  register_hello-Kept k =
      either (Kept k) k.ssl.flags.resumed _ _ (record { same_sizes = refl; short_id = λ l. l })
        (either (λ (r : Result). Kept k (record { ssl = r.ssl; table = r.table }))
          (not k.ssl.flags.server) _ _ (record { same_sizes = refl; short_id = λ l. l })
          (fill_entry-Kept k env.now (choose_entry k.table)))

  derive_keys-sizes : (s : Ssl) → sizes (derive_keys env s) ≡ sizes s
  unfolding derive_keys
  derive_keys-sizes s =
      either (λ (t : Ssl). sizes t ≡ sizes s) s.flags.resumed s _ refl (derived s.premaster)
    where
      derived :
          (o : Option (List ℕ))
          → sizes (elim o [
            | none ↦ s
            | some m ↦ record s {
              master_secret = env.make_master m s.client_random s.server_random;
              premaster = none;
            }
          ])
            ≡ sizes s
      derived none = refl
      derived (some m) = refl

  abbrev derived : Conn → Conn
  derived j = if j.ssl.flags.resumed then set_ssl j (derive_keys env j.ssl) else j

  derived-sizes : (j : Conn) → sizes (derived j).ssl ≡ sizes j.ssl
  derived-sizes j =
      either (λ (q : Conn). sizes q.ssl ≡ sizes j.ssl) j.ssl.flags.resumed
        (set_ssl j (derive_keys env j.ssl)) j (derive_keys-sizes j.ssl) refl

  finish_server_hello-Goes :
      (k : Conn) (x : X) (out : Buf) (o : Option CipherSpec)
      → IsSuite (sizes k.ssl)
      → k.ssl.session_id_len ≤ 32
      → 79 + adds (sizes k.ssl) 2 ≤ out.room
      → Goes
          (sizes k.ssl)
          (79 + adds (sizes k.ssl) 2)
          out.room
          (finish_server_hello w env own k x out o)
  unfolding finish_server_hello
  finish_server_hello-Goes k x out none i l r = crash
  finish_server_hello-Goes k x out (some c) i l r =
      let n = k.ssl.session_id_len in
      on_success-Goes w _ derived
        (write_record-Goes w k x out handshake_record 2 (47 + n) (42 + n)
          (79 + adds (sizes k.ssl) 2) _ (omega arith)
          (omega (arith, hello-adds (sizes k.ssl) n i l)) r)
        derived-sizes

  random_server_hello-Goes :
      (k : Conn) (x : X) (out : Buf) (o : Option (X × List ℕ))
      → IsSuite (sizes k.ssl)
      → k.ssl.session_id_len ≤ 32
      → 79 + adds (sizes k.ssl) 2 ≤ out.room
      → Goes
          (sizes k.ssl)
          (79 + adds (sizes k.ssl) 2)
          out.room
          (random_server_hello w env own k x out o)
  unfolding random_server_hello
  random_server_hello-Goes k x out none i l r = stop _ refl
  random_server_hello-Goes k x out (some (x', bytes)) i l r =
      let k' = set_ssl k (record (k.ssl) { server_random = make_random own.clock bytes }) in
      let j = register_hello w env own k' in
      let kept = register_hello-Kept k' in
      subst
        (λ (c : Sizes).
          Goes c (79 + adds c 2) out.room (finish_server_hello w env own j x' out j.ssl.cipher))
        kept.same_sizes
        (finish_server_hello-Goes j x' out j.ssl.cipher (subst IsSuite (sym kept.same_sizes) i)
          (kept.short_id l)
          (subst (λ (c : Sizes). 79 + adds c 2 ≤ out.room) (sym kept.same_sizes) r))

  -- The room of the Certificate message's record, and of a ServerHelloDone's.
  abbrev cert_room : Sizes → ℕ
  cert_room c = 12 + length own.own_certs * 3 + total_length own.own_certs + adds c 8

  -- The room of the whole flight.
  abbrev flight_room : Sizes → ℕ
  flight_room c = 79 + adds c 2 + cert_room c + (9 + adds c 8)

  module _ (c : Sizes) (i : IsSuite c) (k : Conn) (x : X) (out : Buf) (e : sizes k.ssl ≡ c) where
    write_certificate-Goes :
        cert_room c ≤ out.room
        → Goes c (cert_room c) out.room (write_certificate w env own true k x out)
    unfolding write_certificate
    write_certificate-Goes r =
        let m = 7 + length own.own_certs * 3 + total_length own.own_certs in
        subst
          (λ (d : Sizes). Goes d (cert_room c) out.room (write_certificate w env own true k x out))
          e
          (write_record-Goes w k x out handshake_record 11 _ m (cert_room c) _ (omega arith)
            (subst (λ (d : Sizes). 5 + m + extra d m ≤ cert_room c) (sym e)
              (omega (arith, extra-adds c m i)))
            r)

    write_server_hello_done-Goes :
        9 + adds c 8 ≤ out.room
        → Goes c (9 + adds c 8) out.room (write_server_hello_done w env own k x out)
    unfolding write_server_hello_done
    write_server_hello_done-Goes r =
        subst
          (λ (d : Sizes).
            Goes d (9 + adds c 8) out.room (write_server_hello_done w env own k x out))
          e
          (write_record-Goes w k x out handshake_record 14 9 4 (9 + adds c 8) [] (omega arith)
            (subst (λ (d : Sizes). 9 + extra d 4 ≤ 9 + adds c 8) (sym e)
              (omega (arith, extra-adds c 4 i)))
            r)

  hello_flight-Goes :
      (k : Conn) (x : X) (out : Buf)
      → IsSuite (sizes k.ssl)
      → k.ssl.session_id_len ≤ 32
      → flight_room (sizes k.ssl) ≤ out.room
      → Goes (sizes k.ssl) (flight_room (sizes k.ssl)) out.room (hello_flight w env own k x out)
  unfolding hello_flight write_server_hello
  hello_flight-Goes k x out i l r =
      let s = k.ssl in
      let c = sizes s in
      let k' =
        set_ssl k (record s { server_random = make_random own.clock (drop 4 s.server_random) }) in
      and_then-Goes w {c = c} _ (write_server_hello_done w env own)
        (and_then-Goes w {c = c} _ (write_certificate w env own true)
          (random_server_hello-Goes k' x out (w.entropy x 28) i l (omega arith))
          (λ j y b e f. write_certificate-Goes c i j y b e (omega arith)))
        (λ j y b e f. write_server_hello_done-Goes c i j y b e (omega arith))

  -- A server that answers a ClientHello, with the sizes of a suite and a session id of at most 32 bytes,
  -- has SSL_FULL only for too little room for the whole flight, and then nothing is changed: neither the
  -- connection, the ciphers nor the output.
  pub encode_response-full :
      (k : Conn) (x : X) (out : Buf) (e : Encoded X)
      → IsSuite (sizes k.ssl)
      → k.ssl.session_id_len ≤ 32
      → k.ssl.err ≡ alert_none
      → k.ssl.hs_state ≡ client_key_exchange
      → encode_response w env own k x out ≡ some e
      → e.code ≡ Status.full
      → (out.room < hello_flight_size k.ssl own) × (e ≡ full_record w k x out)
  unfolding encode_response hello_flight_size
  encode_response-full k x out e i l he hs a f =
      let calm : not (k.ssl.err == alert_none) ≡ false = ground arith in
      let waits : (k.ssl.hs_state == client_key_exchange) ≡ true = ground arith in
      let size = hello_flight_size k.ssl own in
      let same : encode_response w env own k x out
          ≡ mark_error (
              if ltb out.room size
              then some (full_record w k x out)
              else hello_flight w env own k x out) =
        rw (calm, waits) refl in
      go (ltb out.room size) refl (sym same ∙ a)
    where
      go :
          (b : Bool)
          → ltb out.room (hello_flight_size k.ssl own) ≡ b
          → mark_error (if b then some (full_record w k x out) else hello_flight w env own k x out)
            ≡ some e
          → (out.room < hello_flight_size k.ssl own) × (e ≡ full_record w k x out)
      go true g q = (ground arith, sym (some-injective _ e q))
      go false g q =
          let room : hello_flight_size k.ssl own ≤ out.room = ground arith in
          let flight =
            hello_flight-Goes k x out i l
              (omega (arith, room, flight-adds (sizes k.ssl) i, additions-secure k.ssl 3)) in
          absurd (
            Goes-full w e
              (subst (λ o. Goes (sizes k.ssl) (flight_room (sizes k.ssl)) out.room o) q
                (mark_error-Goes w _ flight))
              f)
