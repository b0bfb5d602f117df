-- ===== src/Record/Run.antt =====
-- The whole call `matrixSslDecode`: its loop over records, and what its result says.
use robin_mesh_v.Prelude.{
  ℕ, zero, suc, ◌<◌, ◌≡◌, refl, ◌∙◌, Bool, true, false, ◌||◌, Option, none, some, List, arith,
  length, ◌==◌, if◌then◌else◌, ◌⊎◌, inl, inr, ◌≢◌,
}
use mathlib.Core.Path.{subst}
use robin_mesh_v.Cipher.{CipherSpec}
use robin_mesh_v.Handshake.Base.{Env, alert_none, hello_request}
use robin_mesh_v.Record.{
  decode_record, decode_records, respond_to, finish_response, greet_again, encoded,
  matrix_ssl_decode,
}
use robin_mesh_v.Record.Base.{
  Encoded, Wire, Buf, Decoder, Next, again, respond, give, broken, Status, Answer, returned,
  crashed,
}
use robin_mesh_v.Record.Each.{go_on, answer, end}
use robin_mesh_v.Record.Deliver.{Delivered, Fine, decode_record-Fine}

-- What the result of a call says of it.
pub record Told {X : Type 0} (w : Wire X) (out : Buf) (d : Decoder X) (s : Status) : Type 0 where
  pub delivered : s ≡ Status.process_data → Delivered w out d
  pub shut :
      s ≡ Status.alerted
      → (d.alert_level ≡ 2) ⊎ (d.alert_description ≡ 0)
      → (d.conn.ssl.flags.error || d.conn.ssl.flags.closed) ≡ true
  pub refused : s ≡ Status.failed → d.error ≢ alert_none → d.conn.ssl.flags.error ≡ true

module _ {X : Type 0} (w : Wire X) (env : Env) where
  -- Enough fuel: with more than there are bytes of input the loop always returns the same, so it
  -- has ended by its own tests.
  pub decode_records-fuel :
      (f g : ℕ) (d : Decoder X)
      → length d.inp < f
      → length d.inp < g
      → decode_records w f env d ≡ decode_records w g env d
  decode_records-fuel zero g d hf hg = absurd (omega arith)
  decode_records-fuel (suc f) zero d hf hg = absurd (omega arith)
  decode_records-fuel (suc f) (suc g) d hf hg =
      by_record (λ d'. decode_records-fuel f g d') (decode_record w env d) refl
        (decode_record-Fine w env d)
    where
      by_record :
          ((d' : Decoder X)
            → length d'.inp < f
            → length d'.inp < g
            → decode_records w f env d' ≡ decode_records w g env d')
          → (m : Next X) → decode_record w env d ≡ m
          → Fine w env (length d.inp) d.out d.error m
          → decode_records w (suc f) env d ≡ decode_records w (suc g) env d
      by_record ih (again d') e (go_on p) =
          unfold decode_records in
          rw (decode_records, e) (ih d' (omega (arith, p.0)) (omega (arith, p.0)))
      by_record ih (respond d') e b = unfold decode_records in rw (decode_records, e) refl
      by_record ih (give d' s) e b = unfold decode_records in rw (decode_records, e) refl
      by_record ih broken e b = unfold decode_records in rw (decode_records, e) refl

  Tells : Buf → Answer X → Type 0
  Tells out (returned d s) = Told w out d s
  Tells out crashed = Unit

  Tells-if :
      (out : Buf) (b : Bool) (m n : Answer X)
      → (b ≡ true → Tells out m)
      → (b ≡ false → Tells out n)
      → Tells out (if b then m else n)
  Tells-if out true m n f g = f refl
  Tells-if out false m n f g = g refl

  silent :
      {out : Buf} {d : Decoder X} {s : Status}
      → s ≢ Status.process_data
      → s ≢ Status.alerted
      → (s ≡ Status.failed → d.error ≢ alert_none → d.conn.ssl.flags.error ≡ true)
      → Told w out d s
  silent p a r = record { delivered = λ e. absurd (p e); shut = λ e. absurd (a e); refused = r }

  finish_response-Tells :
      (out : Buf) (c : Status) (d : Decoder X)
      → d.error ≡ alert_none
      → Tells out (finish_response w c d)
  unfolding finish_response Tells
  finish_response-Tells out Status.success d e =
      Tells-if out (d.conn.ssl.err == alert_none) _ _
        (λ _. silent (λ q. cc) (λ q. cc) (λ q. absurd cc))
        (λ _. silent (λ q. cc) (λ q. cc) (λ q _. refl))
  finish_response-Tells out Status.full d e = silent (λ q. cc) (λ q. cc) (λ q. absurd cc)
  finish_response-Tells out Status.failed d e = silent (λ q. cc) (λ q. cc) (λ q n. absurd (n e))
  finish_response-Tells out Status.partial d e = silent (λ q. cc) (λ q. cc) (λ q n. absurd (n e))
  finish_response-Tells out Status.send_response d e =
      silent (λ q. cc) (λ q. cc) (λ q n. absurd (n e))
  finish_response-Tells out Status.process_data d e =
      silent (λ q. cc) (λ q. cc) (λ q n. absurd (n e))
  finish_response-Tells out Status.alerted d e = silent (λ q. cc) (λ q. cc) (λ q n. absurd (n e))

  encoded-Tells :
      (out : Buf) (d : Decoder X) (o : Option (Encoded X))
      → d.error ≡ alert_none
      → Tells out (encoded w d o)
  unfolding Tells
  encoded-Tells out d none e = tt
  encoded-Tells out d (some r) e = finish_response-Tells out r.code _ e

  greet_again-Tells :
      (out : Buf) (d : Decoder X) (c : Option CipherSpec)
      → d.error ≡ alert_none
      → Tells out (greet_again w d c)
  unfolding greet_again Tells
  greet_again-Tells out d none e = tt
  greet_again-Tells out d (some c) e =
      encoded-Tells out d (w.encode_client_hello c.id d.conn d.cx d.out) e

  respond_to-Tells : (out : Buf) (d : Decoder X) → d.error ≡ alert_none → Tells out (respond_to w d)
  unfolding respond_to
  respond_to-Tells out d e =
      Tells-if out (d.conn.ssl.hs_state == hello_request) _ _
        (λ _. greet_again-Tells out d d.conn.ssl.cipher e)
        (λ _. encoded-Tells out d (w.encode_response d.conn d.cx d.out) e)

  decode_records-Tells :
      (f : ℕ) (d : Decoder X) → d.error ≡ alert_none → Tells d.out (decode_records w f env d)
  unfolding Tells
  decode_records-Tells zero d e = unfold decode_records in tt
  decode_records-Tells (suc f) d e =
      by_record (λ d'. decode_records-Tells f d') (decode_record w env d) refl
        (decode_record-Fine w env d)
    where
      by_record :
          ((d' : Decoder X) → d'.error ≡ alert_none → Tells d'.out (decode_records w f env d'))
          → (m : Next X) → decode_record w env d ≡ m
          → Fine w env (length d.inp) d.out d.error m
          → Tells d.out (decode_records w (suc f) env d)
      by_record ih (again d') h (go_on p) =
          unfold decode_records in
          rw (decode_records, h)
            (subst (λ o. Tells o (decode_records w f env d')) (p.1) (ih d' (p.2 ∙ e)))
      by_record ih (respond d') h (answer r) =
          unfold decode_records in rw (decode_records, h) (respond_to-Tells d.out d' (r ∙ e))
      by_record ih (give d' s) h (end g) =
          unfold decode_records in
          rw (decode_records, h)
            (record {
              delivered = g.delivered;
              shut = g.shut;
              refused = λ q n. absurd (n (g.kept ∙ e));
            })
      by_record ih broken h b = unfold decode_records in rw (decode_records, h) tt

  decode-Tells : (d : Decoder X) → Tells d.out (matrix_ssl_decode w env d)
  unfolding matrix_ssl_decode Tells
  decode-Tells d =
      Tells-if d.out (d.conn.ssl.flags.error || d.conn.ssl.flags.closed) _ _
        (λ _. silent (λ q. cc) (λ q. cc) (λ q n. absurd (n refl)))
        λ _.
          Tells-if d.out d.conn.ssl.flags.need_encode _ _ (λ _. respond_to-Tells d.out _ refl)
            (λ _. decode_records-Tells (suc (length d.inp)) _ refl)

  decode-Told :
      (d d' : Decoder X) (s : Status)
      → matrix_ssl_decode w env d ≡ returned d' s
      → Told w d.out d' s
  unfolding Tells
  decode-Told d d' s h = subst (Tells d.out) h (decode-Tells d)

-- Application data is handed to the caller only as it was put into the output buffer: at least one
-- byte and at most 2 ^ 14, while reading is secure and the handshake is done or is being repeated.
pub matrix_ssl_decode-Delivered :
    {X : Type 0} (w : Wire X) (env : Env) (d d' : Decoder X)
    → matrix_ssl_decode w env d ≡ returned d' Status.process_data
    → Delivered w d.out d'
matrix_ssl_decode-Delivered w env d d' h = (decode-Told w env d d' _ h).delivered refl

-- A result after which the connection is not to be used: an error with an alert to report, a fatal
-- alert, or a closing one.
pub data IsEnd {X : Type 0} (d : Decoder X) (s : Status) : Type 0 where
  reported : s ≡ Status.failed → d.error ≢ alert_none → IsEnd d s
  fatal : s ≡ Status.alerted → d.alert_level ≡ 2 → IsEnd d s
  close_notify : s ≡ Status.alerted → d.alert_description ≡ 0 → IsEnd d s

-- After a call that ends the connection every further one fails, whatever is in its buffers and
-- whatever the surroundings answer, and changes nothing but the error, which it clears.
pub matrix_ssl_decode-IsEnd :
    {X : Type 0} (w : Wire X) (env env' : Env) (d d' : Decoder X) (s : Status) (i : List ℕ)
    (o : Buf)
    → matrix_ssl_decode w env d ≡ returned d' s
    → IsEnd d' s
    → matrix_ssl_decode w env' (record d' { inp = i; out = o })
      ≡ returned (record d' { inp = i; out = o; error = alert_none }) Status.failed
unfolding matrix_ssl_decode
matrix_ssl_decode-IsEnd w env env' d d' s i o h e =
    let shut : (d'.conn.ssl.flags.error || d'.conn.ssl.flags.closed) ≡ true =
      flagged (decode-Told w env d d' s h) e in
    rw shut
  where
    flagged :
        Told w d.out d' s
        → IsEnd d' s
        → (d'.conn.ssl.flags.error || d'.conn.ssl.flags.closed) ≡ true
    flagged t (reported p q) = ground (arith, t.refused p q)
    flagged t (fatal p q) = t.shut p (inl q)
    flagged t (close_notify p q) = t.shut p (inr q)
