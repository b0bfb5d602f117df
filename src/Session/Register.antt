-- ===== src/Session/Register.antt =====
-- Which entry `matrixRegisterSession` fills, and what it writes there.
use mathlib.Core.Path.{subst}
use robin_mesh_v.Prelude.{
  ℕ, ◌≤◌, ◌<◌, ◌≡◌, refl, ap, ◌∙◌, sym, inl, inr, arith, ltb, leb, true, false, if◌then◌else◌,
  Option, none, some, length, Bool-cases, lt→ltb, leb→le,
}
use robin_mesh_v.Session.{
  scan, choose_entry, compare_time, Time, Table, SessionEntry, entry, is_null, register_session,
  fill_entry, table_size, id_index,
}
use robin_mesh_v.Ssl.{Ssl}
use robin_mesh_v.Session.Index.{id_index-make_id, entry-set_self, entry-set_ne, length-set}
use robin_mesh_v.Session.Scan.{IsFull, Stops, scan-Stops, Outcome, scan_outcome}

-- What may be overwritten at `i`: an empty entry, or, in a full table, the entry that was accessed
-- longest ago of those that no connection uses, and no later than entry 0.
pub data Replaceable (t : Table) (i : ℕ) : Type 0 where
  vacant : i < table_size → is_null (entry t i).cipher ≡ true → Replaceable t i
  idle :
      i < table_size
      → IsFull t
      → (entry t i).in_use ≡ 0
      → compare_time (entry t i).access_time (entry t 0).access_time ≡ true
      → ((m : ℕ)
          → m < table_size
          → (entry t m).in_use ≡ 0
          → compare_time (entry t i).access_time (entry t m).access_time ≡ true)
      → Replaceable t i

-- Every entry is taken, and no unused one was accessed as early as entry 0.
pub record IsExhausted (t : Table) : Type 0 where
  pub full : IsFull t
  pub younger :
      (m : ℕ)
      → m < table_size
      → (entry t m).in_use ≡ 0
      → compare_time (entry t m).access_time (entry t 0).access_time ≡ false

module _ (t : Table) (sized : length t ≡ table_size) where
  stops : Stops t 0 (scan t 0 (entry t 0).access_time table_size).at
  stops = scan-Stops t 0 (entry t 0).access_time table_size

  IsFull-of_end : table_size ≤ (scan t 0 (entry t 0).access_time table_size).at → IsFull t
  IsFull-of_end h m lt = stops.before m (omega (arith, stops.at_k, stops.within))

  outcome :
      IsFull t
      → Outcome t 0
          (entry t 0).access_time
          table_size
          (scan t 0 (entry t 0).access_time table_size).oldest
  outcome full = scan_outcome t 0 (entry t 0).access_time table_size full

data Chosen (t : Table) : Option ℕ → Type 0 where
  taken : {i : ℕ} → Replaceable t i → Chosen t (some i)
  refused : IsExhausted t → Chosen t none

module _ (t : Table) (sized : length t ≡ table_size) where
  choose_idle :
      (k : ℕ) (full : IsFull t)
      → k < length t
      → (entry t k).in_use ≡ 0
      → compare_time (entry t k).access_time (entry t 0).access_time ≡ true
      → ((m : ℕ)
          → m < length t
          → (entry t m).in_use ≡ 0
          → compare_time (entry t k).access_time (entry t m).access_time ≡ true)
      → Chosen t (if ltb k table_size then some k else none)
  choose_idle k full lt unused old least =
      let below : k < table_size = omega arith in
      rw (lt→ltb k table_size below)
        (taken (idle below full unused old (λ m h. least m (rw sized h))))

  choose_oldest :
      (full : IsFull t) (oldest : ℕ)
      → Outcome t 0 (entry t 0).access_time table_size oldest
      → Chosen t (if ltb oldest table_size then some oldest else none)
  choose_oldest full oldest (inl c) =
      let at : oldest ≡ c.k = omega (arith, c.oldest_k) in
      rw at (choose_idle c.k full c.within c.unused c.old c.least)
  choose_oldest full oldest (inr k) =
      rw k.same (refused (record { full = full; younger = λ m h. k.younger m (rw sized h) }))

  choose_vacant : (at : ℕ) → Stops t 0 at → at < table_size → Chosen t (some at)
  choose_vacant at s lt =
      let here : at ≡ s.k = omega (arith, s.at_k) in
      rw here (taken (vacant (omega arith) (s.empty (omega arith))))

  choose_entry-Chosen : Chosen t (choose_entry t)
  unfolding choose_entry
  choose_entry-Chosen =
      elim (Bool-cases (leb table_size (scan t 0 (entry t 0).access_time table_size).at)) [
        | inr early ↦ rw early (choose_vacant _ (stops t sized) (ground arith))
        | inl end ↦
            let full = IsFull-of_end t sized (leb→le _ _ end) in
            rw end (choose_oldest full _ (outcome t sized full))
      ]

Chosen-some : {t : Table} {i : ℕ} → Chosen t (some i) → Replaceable t i
Chosen-some (taken r) = r

pub Replaceable-lt : {t : Table} {i : ℕ} → Replaceable t i → i < table_size
Replaceable-lt (vacant h e) = h
Replaceable-lt (idle h f u o l) = h

-- The table's entry `i` now holds the session of `s`, under an id that leads back to it.
pub record Holds (now : Time) (s s' : Ssl) (t t' : Table) (i : ℕ) : Type 0 where
  pub id_leads : id_index s'.session_id ≡ i
  pub id_len : s'.session_id_len ≡ 32
  pub id_kept : (entry t' i).id ≡ s'.session_id
  pub secret : (entry t' i).master_secret ≡ s.master_secret
  pub suite : (entry t' i).cipher ≡ s.cipher
  pub started : (entry t' i).start_time ≡ now
  pub busy : (entry t' i).in_use ≡ 1
  pub major : (entry t' i).maj_ver ≡ s.maj_ver
  pub minor : (entry t' i).min_ver ≡ s.min_ver
  pub others : (j : ℕ) → (i ≡ j → ⊥) → entry t' j ≡ entry t j
  pub same_length : length t' ≡ length t

ret-fill_entry : (now : Time) (s : Ssl) (t : Table) (o : Option ℕ) → (fill_entry now s t o).ret ≡ o
unfolding fill_entry
ret-fill_entry now s t none = refl
ret-fill_entry now s t (some i) = refl

fill_entry-Holds :
    (now : Time) (s : Ssl) (t : Table) (i : ℕ)
    → length t ≡ table_size
    → 4 ≤ length s.server_random
    → i < table_size
    → let r = fill_entry now s t (some i) in Holds now s r.ssl t r.table i
unfolding fill_entry
fill_entry-Holds now s t i sized random lt =
    let written = λ (e : SessionEntry). entry-set_self t i e (omega arith) in
    record {
      id_leads = id_index-make_id s.server_random i random lt;
      id_len = refl;
      id_kept = ap (λ e. e.id) (written _);
      secret = ap (λ e. e.master_secret) (written _);
      suite = ap (λ e. e.cipher) (written _);
      started = ap (λ e. e.start_time) (written _);
      busy = ap (λ e. e.in_use) (written _);
      major = ap (λ e. e.maj_ver) (written _);
      minor = ap (λ e. e.min_ver) (written _);
      others = λ j ne. entry-set_ne t i j _ ne;
      same_length = length-set t i _;
    }

module _ (now : Time) (s : Ssl) (t : Table) (sized : length t ≡ table_size) where
  register_session_server :
      s.flags.server ≡ true → register_session now s t ≡ fill_entry now s t (choose_entry t)
  unfolding register_session
  register_session_server server = rw server

  server_of_some : {i : ℕ} → (register_session now s t).ret ≡ some i → s.flags.server ≡ true
  unfolding register_session
  server_of_some h = ground arith

  chosen_of_some : {i : ℕ} → (register_session now s t).ret ≡ some i → choose_entry t ≡ some i
  chosen_of_some h =
      sym (ret-fill_entry now s t (choose_entry t))
      ∙ ap (λ r. r.ret) (sym (register_session_server (server_of_some h)))
      ∙ h

  -- The entry that is returned was empty, or the longest idle one of a full table.
  pub register_session-Replaceable :
      {i : ℕ} → (register_session now s t).ret ≡ some i → Replaceable t i
  register_session-Replaceable {i} h =
      Chosen-some (subst (Chosen t) (chosen_of_some h) (choose_entry-Chosen t sized))

  -- On success the entry holds the connection's master secret, suite and versions in use, under an
  -- id that leads back to it, and every other entry is as before.
  pub register_session-Holds :
      {i : ℕ}
      → 4 ≤ length s.server_random
      → (register_session now s t).ret ≡ some i
      → let r = register_session now s t in Holds now s r.ssl t r.table i
  register_session-Holds {i} random h =
      rw (register_session_server (server_of_some h), chosen_of_some h)
        (fill_entry-Holds now s t i sized random (Replaceable-lt (register_session-Replaceable h)))
