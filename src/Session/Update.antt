-- ===== src/Session/Update.antt =====
-- What `matrixUpdateSession` does to a table entry that the connection was never given.
use robin_mesh_v.Prelude.{
  ◌≡◌, ◌⊎◌, inl, inr, refl, ap, ◌∙◌, sym, subst, arith, true, false, if◌then◌else◌, none, some,
  length, Bool-cases, replicate,
}
use robin_mesh_v.Cipher.{CipherSpec}
use robin_mesh_v.Ssl.{Ssl}
use robin_mesh_v.Session.{
  Time, Table, SessionEntry, entry, resume_session, update_session, table_size, id_index,
  master_size, Result,
}
use robin_mesh_v.Session.Index.{entry-set_self, length-set}
use robin_mesh_v.Session.Resume.{
  CanResume, resume_session_iff, resume_session-Resumed, resume_session_busy, resume_session_null,
}

-- The table after an update of entry 0 by a connection that was never registered.
module _ (s : Ssl) (t : Table) (sized : length t ≡ table_size)
    (zeros : s.session_id ≡ replicate 32 0) (server : s.flags.server ≡ true) where
  written : SessionEntry
  written = record (entry t 0) {
    in_use = if s.flags.closed then 0 else 1;
    master_secret = if s.flags.error then replicate master_size 0 else s.master_secret;
    cipher = if s.flags.error then none else s.cipher;
  }

  overwritten : entry (update_session s t).table 0 ≡ written
  unfolding update_session id_index written
  overwritten = ground (
    arith,
    ap id_index zeros,
    entry-set_self t 0 (record (entry t 0) {
      in_use = if s.flags.closed then 0 else 1;
      master_secret = s.master_secret;
      cipher = s.cipher;
    }),
    entry-set_self t 0 (record (entry t 0) {
      in_use = if s.flags.closed then 0 else 1;
      master_secret = replicate master_size 0;
      cipher = none;
    }),
  )

  length-updated : length (update_session s t).table ≡ length t
  unfolding update_session
  length-updated = ground (
    arith,
    length-set t (id_index s.session_id) (record (entry t (id_index s.session_id)) {
      in_use = if s.flags.closed then 0 else 1;
      master_secret = s.master_secret;
      cipher = s.cipher;
    }),
    length-set t (id_index s.session_id) (record (entry t (id_index s.session_id)) {
      in_use = if s.flags.closed then 0 else 1;
      master_secret = replicate master_size 0;
      cipher = none;
    }),
  )

-- What a client's connection `v` that could have resumed entry 0 gets after that update: nothing where
-- the other connection is open or has an error, else the other connection's secret and suite.
pub data Afterwards (now : Time) (s v : Ssl) (t : Table) : Result → Type 0 where
  untouched : s.flags.server ≡ false → Afterwards now s v t (resume_session now v t)
  locked_out :
      (q : Result)
      → s.flags.server ≡ true
      → (s.flags.closed ≡ false) ⊎ (s.flags.error ≡ true)
      → q.ret ≡ none
      → Afterwards now s v t q
  taken_over :
      (q : Result)
      → s.flags.server ≡ true
      → s.flags.closed ≡ true
      → s.flags.error ≡ false
      → q.ret ≡ some 0
      → q.ssl.master_secret ≡ s.master_secret
      → q.ssl.cipher ≡ s.cipher
      → Afterwards now s v t q

module _ (now : Time) (s v : Ssl) (t : Table) (sized : length t ≡ table_size)
    (zeros : s.session_id ≡ replicate 32 0) {c : CipherSpec} (suite : s.cipher ≡ some c)
    (leads : id_index v.session_id ≡ 0) (could : CanResume now v t) where
  unchanged : s.flags.server ≡ false → (update_session s t).table ≡ t
  unfolding update_session
  unchanged client = ground (arith, client)

  locked :
      s.flags.server ≡ true
      → (s.flags.closed ≡ false) ⊎ (s.flags.error ≡ true)
      → (resume_session now v (update_session s t).table).ret ≡ none
  unfolding written
  locked server (inl unclosed) =
      resume_session_busy now v (update_session s t).table
        (rw (leads, overwritten s t sized zeros server, unclosed) refl)
  locked server (inr bad) =
      resume_session_null now v (update_session s t).table
        (rw (leads, overwritten s t sized zeros server, bad) refl)

  still :
      s.flags.server ≡ true
      → s.flags.closed ≡ true
      → s.flags.error ≡ false
      → CanResume now v (update_session s t).table
  unfolding written
  still server closed good =
      let new = overwritten s t sized zeros server in
      record {
        server = could.server;
        has_id = could.has_id;
        in_table = could.in_table;
        live = rw (leads, new, good, suite) refl;
        same_id = rw (leads, new) (rw leads at could.same_id);
        fresh = rw (leads, new) (rw leads at could.fresh);
        idle = rw (leads, new, closed) refl;
        major = rw (leads, new) (rw leads at could.major);
        minor = rw (leads, new) (rw leads at could.minor);
      }

  taken :
      s.flags.server ≡ true
      → s.flags.closed ≡ true
      → s.flags.error ≡ false
      → Afterwards now s v t (resume_session now v (update_session s t).table)
  unfolding written
  taken server closed good =
      let t' = (update_session s t).table in
      let new = overwritten s t sized zeros server in
      let can = still server closed good in
      let done =
        resume_session-Resumed now v t' (length-updated s t sized zeros server ∙ sized) can in
      taken_over _ server closed good ((resume_session_iff now v t').0.1 can)
        (done.secret ∙ rw (leads, new, good) refl) (done.suite ∙ rw (leads, new, good) refl)

  -- The id of a connection that was never registered is zeros, which lead to entry 0. Where a client's
  -- connection could have resumed that entry, after such a connection, with a suite, has updated its
  -- session, the client is refused if that connection is open or has an error, and else resumes with that
  -- connection's master secret and suite; only the update of a connection that is no server's changes
  -- nothing.
  pub update_session_unregistered :
      Afterwards now s v t (resume_session now v (update_session s t).table)
  update_session_unregistered = elim (Bool-cases s.flags.server) [
    | inr client ↦
        subst (λ u. Afterwards now s v t (resume_session now v u)) (sym (unchanged client))
          (untouched client)
    | inl server ↦ elim (Bool-cases s.flags.closed) [
      | inr unclosed ↦ locked_out _ server (inl unclosed) (locked server (inl unclosed))
      | inl closed ↦ elim (Bool-cases s.flags.error) [
        | inl bad ↦ locked_out _ server (inr bad) (locked server (inr bad))
        | inr good ↦ taken server closed good
      ]
    ]
  ]
