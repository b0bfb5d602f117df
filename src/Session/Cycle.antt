-- ===== src/Session/Cycle.antt =====
-- A session from its registration to its resumption.
use robin_mesh_v.Prelude.{
  ℕ, ◌≤◌, ◌<◌, ◌≡◌, refl, ap, ◌∙◌, sym, List, arith, true, false, some, length,
}
use robin_mesh_v.Cipher.{CipherSpec}
use robin_mesh_v.Ssl.{Ssl}
use robin_mesh_v.Session.{
  Time, Table, SessionEntry, entry, diff_secs, register_session, resume_session, clear_session,
  table_size, id_index,
}
use robin_mesh_v.Session.Index.{entry-set_self, length-set}
use robin_mesh_v.Session.Register.{
  Holds, register_session-Holds, register_session-Replaceable, Replaceable-lt,
}
use robin_mesh_v.Session.Resume.{CanResume, resume_session_iff, resume_session-Resumed}

-- Releasing a session clears its entry's in-use mark and its flag, and nothing else.
released :
    (s : Ssl) (t : Table) (i : ℕ)
    → length t ≡ table_size
    → s.session_id_len ≡ 32
    → id_index s.session_id ≡ i
    → i < table_size
    → entry (clear_session s false t).table i ≡ record (entry t i) { in_use = 0; flag = 0 }
unfolding clear_session
released s t i sized has_id leads lt =
    ground (arith, entry-set_self t i (record (entry t i) { in_use = 0; flag = 0 }))

length-released : (s : Ssl) (t : Table) → length (clear_session s false t).table ≡ length t
unfolding clear_session
length-released s t = ground (
  arith,
  length-set t (id_index s.session_id)
      (record (entry t (id_index s.session_id)) { in_use = 0; flag = 0 }),
)

-- A returning client's connection: a server's, with the session id that `s` was given and the
-- versions of `s`.
pub record Returns (s : Ssl) (id : List ℕ) (u : Ssl) : Type 0 where
  pub server : u.flags.server ≡ true
  pub same_id : u.session_id ≡ id
  pub id_len : u.session_id_len ≡ 32
  pub major : u.maj_ver ≡ s.maj_ver
  pub minor : u.min_ver ≡ s.min_ver

module _ (now later : Time) (s u : Ssl) (fresh : diff_secs now later ≤ 86400) where
  module _ (t : Table) (sized : length t ≡ table_size) {i : ℕ} {s' : Ssl} {t' : Table}
      (held : Holds now s s' t t' i) (inside : i < table_size) {c : CipherSpec}
      (suite : s.cipher ≡ some c) (back : Returns s s'.session_id u) where
    idle_entry : SessionEntry
    idle_entry = record (entry t' i) { in_use = 0; flag = 0 }

    found : entry (clear_session s' false t').table i ≡ idle_entry
    unfolding idle_entry
    found = released s' t' i (held.same_length ∙ sized) held.id_len held.id_leads inside

    leads : id_index u.session_id ≡ i
    leads = ap id_index back.same_id ∙ held.id_leads

    can : CanResume later u (clear_session s' false t').table
    unfolding idle_entry diff_secs
    can = record {
      server = back.server;
      has_id = omega (arith, back.id_len);
      in_table = omega (arith, leads);
      live = rw (leads, found, held.suite, suite) refl;
      same_id = rw (leads, found, back.same_id, held.id_kept) (λ j l m o. refl);
      fresh = rw (leads, found, held.started) (omega (arith, fresh));
      idle = rw (leads, found) refl;
      major = rw (leads, found) (held.major ∙ sym back.major);
      minor = rw (leads, found) (held.minor ∙ sym back.minor);
    }

    resumes :
        let q = resume_session later u (clear_session s' false t').table in
        (q.ret ≡ some 0) × (q.ssl.master_secret ≡ s.master_secret) × (q.ssl.cipher ≡ s.cipher)
    unfolding idle_entry
    resumes =
        let t'' = (clear_session s' false t').table in
        let done =
          resume_session-Resumed later u t'' (length-released s' t' ∙ held.same_length ∙ sized)
            can in
        (
          (resume_session_iff later u t'').0.1 can,
          done.secret
              ∙ ap (λ k. (entry t'' k).master_secret) leads
              ∙ ap (λ e. e.master_secret) found
              ∙ held.secret,
          done.suite ∙ ap (λ k. (entry t'' k).cipher) leads ∙ ap (λ e. e.cipher) found ∙ held.suite,
        )

-- A session that was registered and then released is found again by a connection that returns with
-- its id and versions within a day: the connection gets the master secret and the suite of the
-- registration.
pub registered_resumes :
    (now later : Time) (s u : Ssl) (t : Table) {i : ℕ} {c : CipherSpec}
    → length t ≡ table_size
    → 4 ≤ length s.server_random
    → s.cipher ≡ some c
    → (register_session now s t).ret ≡ some i
    → Returns s (register_session now s t).ssl.session_id u
    → diff_secs now later ≤ 86400
    → let r = register_session now s t in
      let q = resume_session later u (clear_session r.ssl false r.table).table in
      (q.ret ≡ some 0) × (q.ssl.master_secret ≡ s.master_secret) × (q.ssl.cipher ≡ s.cipher)
registered_resumes now later s u t sized random suite h back fresh =
    resumes now later s u fresh t sized (register_session-Holds now s t sized random h)
      (Replaceable-lt (register_session-Replaceable now s t sized h)) suite back
