-- ===== src/Session/Resume.antt =====
-- Looking up, releasing and invalidating cached sessions: `matrixResumeSession`,
-- `matrixClearSession` and `matrixUpdateSession` against what was registered.
use robin_mesh_v.Prelude.{
  ℕ, ◌+◌, ◌≤◌, ◌<◌, min, ◌≡◌, ◌↔◌, arith, true, false, if◌then◌else◌, none, some, length, replicate,
  ◌≢◌,
}
use robin_mesh_v.Ssl.{Ssl}
use robin_mesh_v.Session.{
  Time, Table, SessionEntry, entry, resumable, is_null, resume_session, update_session, table_size,
  id_index, Result, master_size, diff_secs,
}
use robin_mesh_v.Session.Index.{entry-set_self, entry-set_ne, SameStart, same_bytes_iff}

-- What `matrixResumeSession` asks: a server's connection, with an id that leads to an entry that holds a
-- session, under this id, started a day ago at most, of the connection's version, that is not in use.
pub record CanResume (now : Time) (s : Ssl) (t : Table) : Type 0 where
  pub server : s.flags.server ≡ true
  pub has_id : s.session_id_len ≢ 0
  pub in_table : id_index s.session_id < table_size
  pub live : is_null (entry t (id_index s.session_id)).cipher ≡ false
  pub same_id :
      SameStart (min s.session_id_len 32) (entry t (id_index s.session_id)).id s.session_id
  pub fresh : now.sec ≤ (entry t (id_index s.session_id)).start_time.sec + 86400
  pub idle : (entry t (id_index s.session_id)).in_use ≡ 0
  pub major : (entry t (id_index s.session_id)).maj_ver ≡ s.maj_ver
  pub minor : (entry t (id_index s.session_id)).min_ver ≡ s.min_ver

-- What it does on success: the connection has the entry's secret and suite, and the entry is in use.
pub record Resumed (now : Time) (s : Ssl) (t : Table) (r : Result) : Type 0 where
  pub secret : r.ssl.master_secret ≡ (entry t (id_index s.session_id)).master_secret
  pub suite : r.ssl.cipher ≡ (entry t (id_index s.session_id)).cipher
  pub same_id : r.ssl.session_id ≡ s.session_id
  pub busy : (entry r.table (id_index s.session_id)).in_use ≡ 1
  pub others : (j : ℕ) → (id_index s.session_id ≡ j → ⊥) → entry r.table j ≡ entry t j

-- The tests of an entry.
record Fits (now : Time) (s : Ssl) (e : SessionEntry) : Type 0 where
  same_id : SameStart (min s.session_id_len 32) e.id s.session_id
  fresh : now.sec ≤ e.start_time.sec + 86400
  idle : e.in_use ≡ 0
  major : e.maj_ver ≡ s.maj_ver
  minor : e.min_ver ≡ s.min_ver

resumable-Fits : (now : Time) (s : Ssl) (e : SessionEntry) → resumable now s e ≡ true → Fits now s e
unfolding resumable diff_secs
resumable-Fits now s e h = record {
  same_id = (same_bytes_iff (min s.session_id_len 32) e.id s.session_id).0 (ground arith);
  fresh = ground arith;
  idle = ground arith;
  major = ground arith;
  minor = ground arith;
}

Fits-resumable : (now : Time) (s : Ssl) (e : SessionEntry) → Fits now s e → resumable now s e ≡ true
unfolding resumable diff_secs
Fits-resumable now s e f = ground (
  arith,
  (same_bytes_iff (min s.session_id_len 32) e.id s.session_id).1 f.same_id,
  f.fresh,
  f.idle,
  f.major,
  f.minor,
)

module _ (now : Time) (s : Ssl) (t : Table) where
  resume_session-CanResume : (resume_session now s t).ret ≡ some 0 → CanResume now s t
  unfolding resume_session
  resume_session-CanResume h =
      let fits : Fits now s (entry t (id_index s.session_id)) =
        resumable-Fits now s _ (ground arith) in
      record {
        server = ground arith;
        has_id = ground arith;
        in_table = ground arith;
        live = ground arith;
        same_id = fits.same_id;
        fresh = fits.fresh;
        idle = fits.idle;
        major = fits.major;
        minor = fits.minor;
      }

  CanResume-resumable : CanResume now s t → resumable now s (entry t (id_index s.session_id)) ≡ true
  CanResume-resumable c = Fits-resumable now s _ (record {
    same_id = c.same_id;
    fresh = c.fresh;
    idle = c.idle;
    major = c.major;
    minor = c.minor;
  })

  CanResume-resume_session : CanResume now s t → (resume_session now s t).ret ≡ some 0
  unfolding resume_session
  CanResume-resume_session c =
      ground (arith, c.server, c.has_id, c.in_table, c.live, CanResume-resumable c)

  ssl-resume_session : (resume_session now s t).ret ≡ none → (resume_session now s t).ssl ≡ s
  unfolding resume_session
  ssl-resume_session h = ground arith

  -- The lookup succeeds exactly when the connection is a server's and has an id, of which the first four
  -- bytes lead to an entry of the table that holds a session, whose id begins with the bytes of that id,
  -- that started a day ago at most, has the connection's version and is not in use; otherwise the
  -- connection is unchanged.
  pub resume_session_iff :
      (((resume_session now s t).ret ≡ some 0) ↔ CanResume now s t)
      × ((resume_session now s t).ret ≡ none → (resume_session now s t).ssl ≡ s)
  resume_session_iff = ((resume_session-CanResume, CanResume-resume_session), ssl-resume_session)

  -- Where the lookup succeeds in a table of full size, the connection gets the entry's master secret
  -- and suite and keeps its id, the entry is marked in use, and every other entry is as before.
  pub resume_session-Resumed :
      length t ≡ table_size → CanResume now s t → Resumed now s t (resume_session now s t)
  unfolding resume_session
  resume_session-Resumed sized c =
      let i = id_index s.session_id in
      let e : SessionEntry = record (entry t i) { access_time = now; in_use = 1 } in
      let fits = CanResume-resumable c in
      record {
        secret = ground (arith, c.server, c.has_id, c.in_table, c.live, fits);
        suite = ground (arith, c.server, c.has_id, c.in_table, c.live, fits);
        same_id = ground (arith, c.server, c.has_id, c.in_table, c.live, fits);
        busy = ground (arith, c.server, c.has_id, c.in_table, c.live, fits, entry-set_self t i e);
        others = λ j ne.
            ground (arith, c.server, c.has_id, c.in_table, c.live, fits, entry-set_ne t i j e ne);
      }

  -- A session in use cannot be resumed.
  pub resume_session_busy :
      (entry t (id_index s.session_id)).in_use ≡ 1 → (resume_session now s t).ret ≡ none
  unfolding resume_session resumable
  resume_session_busy h = ground arith

  pub resume_session_null :
      (entry t (id_index s.session_id)).cipher ≡ none → (resume_session now s t).ret ≡ none
  unfolding resume_session
  resume_session_null h = ground arith

-- Once a connection has resumed a session, no other can resume it until it is released.
resume_session_once :
    (now later : Time) (s u : Ssl) (t : Table)
    → length t ≡ table_size
    → id_index u.session_id ≡ id_index s.session_id
    → (resume_session now s t).ret ≡ some 0
    → (resume_session later u (resume_session now s t).table).ret ≡ none
resume_session_once now later s u t sized same h =
    resume_session_busy later u (resume_session now s t).table
      (rw same (resume_session-Resumed now s t sized (resume_session-CanResume now s t h)).busy)

-- After `matrixUpdateSession` on a server's connection with an error, whose id leads into the table,
-- no connection with an id that leads to the same entry can resume.
update_session-error :
    (s u : Ssl) (t : Table) (now : Time)
    → length t ≡ table_size
    → s.flags.server ≡ true
    → s.flags.error ≡ true
    → id_index s.session_id < table_size
    → id_index u.session_id ≡ id_index s.session_id
    → (resume_session now u (update_session s t).table).ret ≡ none
update_session-error s u t now sized server bad inside same =
    resume_session_null now u (update_session s t).table (rw same erased)
  where
    erased : (entry (update_session s t).table (id_index s.session_id)).cipher ≡ none
    erased =
        unfold update_session in
        ground (
          arith,
          entry-set_self t (id_index s.session_id) (record (entry t (id_index s.session_id)) {
            in_use = if s.flags.closed then 0 else 1;
            master_secret = replicate master_size 0;
            cipher = none;
          }),
        )
