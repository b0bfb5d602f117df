-- ===== src/Encode/Room.antt =====
-- The room that records and flights of sslEncode.c take in the output buffer.
use robin_mesh_v.Prelude.{
  ℕ, ◌+◌, ◌-◌, ◌≤◌, ◌<◌, ◌≡◌, ◌≢◌, refl, ◌∙◌, subst, Bool, true, false, Option, none, some, List,
  ◌++◌, arith, length, ltb, ◌==◌, if◌then◌else◌, length-append,
}
use robin_mesh_v.Ssl.{Ssl}
use robin_mesh_v.Handshake.{add_hash}
use robin_mesh_v.Handshake.Base.{Conn}
use robin_mesh_v.Record.{handshake_record}
use robin_mesh_v.Record.Base.{Buf, put, Encoded, Status}
use robin_mesh_v.Encode.Base.{
  mark_error, Sealer, Header, start_record, seal_record, seal_started, put_record, write_record,
  pad_len_pwr2, and_then, on_success,
}

-- What the size of a record depends on: whether writing is secure, the MAC's size and the block's.
abbrev pub Sizes : Type 0
Sizes = Bool × (ℕ × ℕ)

abbrev pub sizes : Ssl → Sizes
sizes s = (s.flags.write_secure, (s.en_mac_size, s.en_block_size))

-- What the MAC and the padding add to a message of `m` bytes.
abbrev pub extra : Sizes → ℕ → ℕ
extra (false, _) m = 0
extra (true, (mac, block)) m = mac + pad_len_pwr2 (m + mac) block

-- Whether a header could be written, for a message of `m` bytes.
pub data Starts (c : Sizes) (m room : ℕ) : Option Header → Type 0 where
  no_room : room < 5 + m + extra c m → Starts c m room none
  ready :
      (h : Header)
      → h.size ≡ 5 + m + extra c m
      → length h.info ≡ 5
      → 5 + m + extra c m ≤ room
      → Starts c m room (some h)

Starts-if :
    (c : Sizes) (m room n : ℕ) (h : Header)
    → n ≡ 5 + m + extra c m
    → h.size ≡ n
    → length h.info ≡ 5
    → Starts c m room (if ltb room n then none else some h)
Starts-if c m room n h e f i = go (ltb room n) refl
  where
    go : (b : Bool) → ltb room n ≡ b → Starts c m room (if b then none else some h)
    go true g = no_room (ground arith)
    go false g = ready h (f ∙ e) i (ground arith)

module _ (s : Ssl) (m : ℕ) where
  total :
      (if s.flags.write_secure then 5 + m + s.en_mac_size else 5 + m)
        + (if s.flags.write_secure
            then pad_len_pwr2
                ((if s.flags.write_secure then 5 + m + s.en_mac_size else 5 + m) - 5)
                s.en_block_size
            else 0)
      ≡ 5 + m + extra (sizes s) m
  total = go s.flags.write_secure
    where
      go :
          (b : Bool)
          → (if b then 5 + m + s.en_mac_size else 5 + m)
              + (if b
                  then pad_len_pwr2
                      ((if b then 5 + m + s.en_mac_size else 5 + m) - 5)
                      s.en_block_size
                  else 0)
            ≡ 5 + m + extra (b, (s.en_mac_size, s.en_block_size)) m
      go true =
          let e : 5 + m + s.en_mac_size - 5 ≡ m + s.en_mac_size = omega arith in rw e (omega arith)
      go false = omega arith

  pub start_record-Starts :
      (t hs_type size room : ℕ)
      → size ≡ 5 + m
      → Starts (sizes s) m room (start_record s t hs_type size room)
  unfolding start_record
  start_record-Starts t hs_type size room e = rw e (Starts-if (sizes s) m room _ _ total refl refl)

-- A step that takes at most `n` bytes of `room`, and leaves the sizes as `c`: it is not SSL_FULL.
pub data Goes {X : Type 0} (c : Sizes) (n room : ℕ) : Option (Encoded X) → Type 0 where
  crash : Goes c n room none
  stop : (e : Encoded X) → e.code ≡ Status.failed → Goes c n room (some e)
  next :
      (e : Encoded X)
      → e.code ≡ Status.success
      → sizes e.conn.ssl ≡ c
      → room - n ≤ e.out.room
      → Goes c n room (some e)

module _ {X : Type 0} (w : Sealer X) where
  put_record-Goes :
      (k : Conn) (out : Buf) (h : Header) (x : X) (o : Option (X × List ℕ)) (n : ℕ)
      → length h.info ≡ 5
      → h.size ≤ n
      → Goes (sizes k.ssl) n out.room (some (put_record w k out h x o))
  unfolding put_record
  put_record-Goes k out h x none n i l = stop _ refl
  put_record-Goes k out h x (some (x', bytes)) n i l = go (5 + length bytes == h.size) refl
    where
      go :
          (b : Bool)
          → (5 + length bytes == h.size) ≡ b
          → Goes (sizes k.ssl) n out.room (
              some (
                if b
                then record {
                  conn = k;
                  cx = x';
                  out = put (h.info ++ bytes) out;
                  code = Status.success;
                }
                else record { conn = k; cx = x'; out = out; code = Status.failed }))
      go true e = next _ refl refl (omega (arith, whole e, length-append h.info bytes))
        where
          whole : (5 + length bytes == h.size) ≡ true → 5 + length bytes ≡ h.size
          whole e = ground arith
      go false e = stop _ refl

  pub write_record-Goes :
      (k : Conn) (x : X) (out : Buf) (t hs_type size m n : ℕ) (body : List ℕ)
      → size ≡ 5 + m
      → 5 + m + extra (sizes k.ssl) m ≤ n
      → n ≤ out.room
      → Goes (sizes k.ssl) n out.room (some (write_record w k x out t hs_type size body))
  unfolding write_record seal_started seal_record
  write_record-Goes k x out t hs_type size m n body e l r =
      go (start_record k.ssl t hs_type size out.room)
        (start_record-Starts k.ssl m t hs_type size out.room e)
    where
      hashed : (b : Bool) (p : List ℕ) → sizes (if b then add_hash p k else k).ssl ≡ sizes k.ssl
      hashed true p = refl
      hashed false p = refl

      go :
          (o : Option Header)
          → Starts (sizes k.ssl) m out.room o
          → Goes (sizes k.ssl) n out.room (some (seal_started w k x out t body o))
      go none (no_room f) = absurd (omega arith)
      go (some h) (ready _ f i g) =
          subst (λ (c : Sizes). Goes c n out.room (some (seal_started w k x out t body (some h))))
            (hashed (t == handshake_record) (h.start ++ body))
            (put_record-Goes _ out h _ _ n i (omega arith))

  weaken :
      {c : Sizes} (n m : ℕ) {r room : ℕ} {o : Option (Encoded X)}
      → room - n ≤ r
      → Goes c m r o
      → Goes c (n + m) room o
  weaken n m l crash = crash
  weaken n m l (stop e f) = stop e f
  weaken n m l (next e f g h) = next e f g (omega arith)

  pub and_then-Goes :
      {c c' : Sizes} {n m room : ℕ} (o : Option (Encoded X))
      (f : Conn → X → Buf → Option (Encoded X))
      → Goes c n room o
      → ((k : Conn) (x : X) (out : Buf)
          → sizes k.ssl ≡ c
          → room - n ≤ out.room
          → Goes c' m out.room (f k x out))
      → Goes c' (n + m) room (and_then w o f)
  and_then-Goes none f g h = crash
  and_then-Goes (some e) f (stop _ p) h = simp p (stop e p)
  and_then-Goes (some e) f (next _ p q r) h = simp p (weaken _ _ r (h e.conn e.cx e.out q r))

  pub on_success-Goes :
      {c : Sizes} {n room : ℕ} (e : Encoded X) (f : Conn → Conn)
      → Goes c n room (some e)
      → ((k : Conn) → sizes (f k).ssl ≡ sizes k.ssl)
      → Goes c n room (some (on_success w e f))
  on_success-Goes {c = c} {n = n} {room = room} e f g h = go e.code refl g
    where
      step : Status → Encoded X
      step d = elim d [ Status.success ↦ record e { conn = f e.conn } | _ ↦ e ]

      go : (d : Status) → e.code ≡ d → Goes c n room (some e) → Goes c n room (some (step d))
      go Status.success p (next _ q i l) = next _ q (h e.conn ∙ i) l
      go Status.success p (stop _ q) = absurd cc
      go Status.failed p g = g
      go Status.full p g = g
      go Status.partial p g = g
      go Status.send_response p g = g
      go Status.process_data p g = g
      go Status.alerted p g = g

  pub mark_error-Goes :
      {c : Sizes} {n room : ℕ} (o : Option (Encoded X))
      → Goes c n room o
      → Goes c n room (mark_error o)
  mark_error-Goes none crash = crash
  mark_error-Goes (some e) (stop _ p) = simp p (stop _ refl)
  mark_error-Goes (some e) (next _ p q r) = simp p (next _ p q r)

  pub Goes-full :
      {c : Sizes} {n room : ℕ} (e : Encoded X) → Goes c n room (some e) → e.code ≢ Status.full
  Goes-full e (stop _ p) q = absurd cc
  Goes-full e (next _ p _ _) q = absurd cc
