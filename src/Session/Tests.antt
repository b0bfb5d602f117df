-- ===== src/Session/Tests.antt =====
-- The theorems on the session cache at concrete tables.
use robin_mesh_v.Prelude.{
  ℕ, ◌≡◌, refl, ◌↔◌, ◌<◌, arith, some, none, false, true, length, sym, ◌≤◌, replicate,
}
use robin_mesh_v.Ssl.{Ssl}
use robin_mesh_v.Sample.{
  noon, hour_later, server, returning, first_id, idle_table, stuck_table, plain_flags,
}
use robin_mesh_v.Session.{
  open_table, register_session, resume_session, clear_session, update_session, fill_entry,
  choose_entry, scan, compare_time, make_id, id_index, resumable, same_bytes, diff_secs,
}
use robin_mesh_v.Session.Resume.{CanResume, resume_session_iff}
use robin_mesh_v.Session.Cycle.{registered_resumes}
use robin_mesh_v.Session.Update.{Afterwards, update_session_unregistered}

abbrev no_byte : ℕ
no_byte = 0

-- The stuck table refuses a session, though 31 of its entries are not in use.
stuck : (register_session hour_later server stuck_table).ret ≡ none
unfolding register_session fill_entry choose_entry scan compare_time
stuck = refl

registered : (register_session noon server open_table).ret ≡ some 0
unfolding register_session fill_entry choose_entry scan open_table
registered = refl

open_table_sized : length open_table ≡ 32
unfolding open_table
open_table_sized = refl

resume_session_iff_example :
    (((resume_session hour_later returning idle_table).ret ≡ some 0)
      ↔ CanResume hour_later returning idle_table)
    × ((resume_session hour_later returning idle_table).ret ≡ none
        → (resume_session hour_later returning idle_table).ssl ≡ returning)
resume_session_iff_example = resume_session_iff hour_later returning idle_table

can_resume : CanResume hour_later returning idle_table
unfolding id_index resumable same_bytes diff_secs
can_resume = record {
  server = refl;
  has_id = omega arith;
  in_table = omega arith;
  live = refl;
  same_id = λ j l m o. refl;
  fresh = omega arith;
  idle = refl;
  major = refl;
  minor = refl;
}

resumed : (resume_session hour_later returning idle_table).ret ≡ some 0
unfolding resume_session id_index resumable same_bytes diff_secs
resumed = refl

abbrev failing : Ssl
failing = record returning { flags = record plain_flags { error = true } }

failing_leads : id_index failing.session_id < 32
unfolding id_index
failing_leads = omega arith

hour_apart : diff_secs noon hour_later ≤ 86400
unfolding diff_secs
hour_apart = omega arith

returning_id : (register_session noon server open_table).ssl.session_id ≡ first_id
unfolding register_session fill_entry choose_entry scan open_table make_id
returning_id = refl

registered_resumes_example :
    let r = register_session noon server open_table in
    let q = resume_session hour_later returning (clear_session r.ssl false r.table).table in
    (q.ret ≡ some 0) × (q.ssl.master_secret ≡ server.master_secret) × (q.ssl.cipher ≡ server.cipher)
registered_resumes_example =
    registered_resumes noon hour_later server returning open_table open_table_sized (omega arith)
      refl registered
      (record {
        server = refl;
        same_id = sym returning_id;
        id_len = refl;
        major = refl;
        minor = refl;
      })
      hour_apart

-- A connection that is closed before it was registered.
abbrev unregistered : Ssl
unregistered = record server {
  session_id = replicate 32 0;
  flags = record plain_flags { closed = true };
}

returning_leads : id_index returning.session_id ≡ 0
unfolding id_index
returning_leads = refl

update_session_unregistered_example :
    Afterwards hour_later unregistered returning idle_table
      (resume_session hour_later returning (update_session unregistered idle_table).table)
update_session_unregistered_example =
    update_session_unregistered hour_later unregistered returning idle_table refl refl refl
      returning_leads can_resume
