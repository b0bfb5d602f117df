-- ===== src/Session.antt =====
-- The server's session cache of matrixSsl.c: the table `sessionTable` and the operations that
-- register, look up, release, update and remove an entry. The library is built without threads, so
-- the table's lock is no operation. A `char` is signed, as on the routers' compilers.

pub mod Index
pub mod Scan
pub mod Register
pub mod Resume
pub mod Cycle
pub mod Update
mod Tests
use mathlib.Core.Option.{Option, none, some}
use robin_mesh_v.Prelude.{
  ℕ, zero, suc, ◌+◌, ◌-◌, ◌*◌, ◌/◌, ◌%◌, ◌^◌, Bool, true, false, ◌&&◌, ◌||◌, not, List, [], ◌∷◌,
  ltb, leb, ◌==◌, if◌then◌else◌, get_or, set, take, replicate,
}
use robin_mesh_v.Cipher.{CipherSpec}
use robin_mesh_v.Ssl.{Ssl}

abbrev pub table_size : ℕ
table_size = 32

abbrev pub max_session_id_size : ℕ
max_session_id_size = 32

abbrev pub master_size : ℕ
master_size = 48

-- `sslTime_t`
pub record Time : Type 0 where
  pub sec : ℕ
  pub usec : ℕ

-- `sslSessionEntry_t`
pub record SessionEntry : Type 0 where
  pub id : List ℕ
  pub master_secret : List ℕ
  pub cipher : Option CipherSpec
  pub maj_ver : ℕ
  pub min_ver : ℕ
  pub flag : ℕ
  pub start_time : Time
  pub access_time : Time
  pub in_use : ℕ

-- An entry after `memset` to 0.
abbrev pub empty_entry : SessionEntry
empty_entry = record {
  id = replicate max_session_id_size 0;
  master_secret = replicate master_size 0;
  cipher = none;
  maj_ver = 0;
  min_ver = 0;
  flag = 0;
  start_time = record { sec = 0; usec = 0 };
  access_time = record { sec = 0; usec = 0 };
  in_use = 0;
}

-- `sessionTable`, of `table_size` entries.
abbrev pub Table : Type 0
Table = List SessionEntry

-- `matrixSslOpen` clears the table.
unfoldable pub open_table : Table
open_table = replicate table_size empty_entry

-- `sslCompareTime`: is `a` less or equal?
unfoldable pub compare_time : Time → Time → Bool
compare_time a b = ltb a.sec b.sec || (a.sec == b.sec && leb a.usec b.usec)

-- `sslDiffSecs`, which only a test "> 86400" reads: where `now` is before `then` both are false.
unfoldable pub diff_secs : Time → Time → ℕ
diff_secs since now = now.sec - since.sec

abbrev pub is_null : Option CipherSpec → Bool
is_null none = true
is_null (some c) = false

abbrev pub entry : Table → ℕ → SessionEntry
entry t i = get_or t i empty_entry

-- `(int)(char)b` as a 32-bit pattern.
abbrev pub char_to_int : ℕ → ℕ
char_to_int b = if ltb b 128 then b else b + (2 ^ 32 - 256)

-- `i = (id[3] << 24) + (id[2] << 16) + (id[1] << 8) + id[0]` as a `uint32`.
unfoldable pub id_index : List ℕ → ℕ
id_index id =
    (char_to_int (get_or id 3 0) * 2 ^ 24
      + char_to_int (get_or id 2 0) * 2 ^ 16
      + char_to_int (get_or id 1 0) * 2 ^ 8
      + char_to_int (get_or id 0 0))
    % 2 ^ 32

-- The loop of `matrixRegisterSession` from entry `i` on: the first empty entry, or the end; and the
-- entry that `j` names last.
unfoldable pub scan : Table → ℕ → Time → ℕ → record { at : ℕ; oldest : ℕ }
scan [] i t j = record { at = i; oldest = j }
scan (e ∷ es) i t j =
    let found = compare_time e.access_time t && e.in_use == 0 in
    let rest = scan es (i + 1) (if found then e.access_time else t) (if found then i else j) in
    if is_null e.cipher then record { at = i; oldest = j } else rest

-- The entry to fill, if there is one.
unfoldable pub choose_entry : Table → Option ℕ
choose_entry t =
    let r = scan t 0 (entry t 0).access_time table_size in
    if leb table_size r.at
    then (if ltb r.oldest table_size then some r.oldest else none)
    else some r.at

-- The session id: the server random, its first four bytes replaced by the entry's index.
unfoldable pub make_id : List ℕ → ℕ → List ℕ
make_id random i =
    set
      (set (set (set (take max_session_id_size random) 0 (i % 256)) 1 (i / 2 ^ 8 % 256)) 2
        (i / 2 ^ 16 % 256))
      3 (i / 2 ^ 24 % 256)

-- What the operations return: `none` is -1. They may change the connection and the table.
pub record Result : Type 0 where
  pub ret : Option ℕ
  pub ssl : Ssl
  pub table : Table

-- What `matrixRegisterSession` does once the entry is chosen; `now` is what `sslInitMsecs` reads
-- from the clock.
unfoldable pub fill_entry : Time → Ssl → Table → Option ℕ → Result
fill_entry now s t none = record { ret = none; ssl = s; table = t }
fill_entry now s t (some i) =
    let id = make_id s.server_random i in
    record {
      ret = some i;
      ssl = record s { session_id_len = max_session_id_size; session_id = id };
      table = set t i (record {
        id = id;
        master_secret = s.master_secret;
        cipher = s.cipher;
        maj_ver = s.maj_ver;
        min_ver = s.min_ver;
        flag = 0;
        start_time = now;
        access_time = now;
        in_use = 1;
      });
    }

-- `matrixRegisterSession`
unfoldable pub register_session : Time → Ssl → Table → Result
register_session now s t =
    if not s.flags.server
    then record { ret = none; ssl = s; table = t }
    else fill_entry now s t (choose_entry t)

-- `matrixClearSession`
unfoldable pub clear_session : Ssl → Bool → Table → Result
clear_session s remove t =
    let i = id_index s.session_id in
    if s.session_id_len == 0
    then record { ret = none; ssl = s; table = t }
    else if leb table_size i
    then record { ret = none; ssl = s; table = t }
    else if remove
    then record {
      ret = some 0;
      ssl = record s {
        session_id = replicate max_session_id_size 0;
        session_id_len = 0;
        flags = record (s.flags) { resumed = false };
      };
      table = set t i empty_entry;
    }
    else record {
      ret = some 0;
      ssl = s;
      table = set t i (record (entry t i) { in_use = 0; flag = 0 });
    }

-- `memcmp(a, b, n) == 0` on buffers of at least `n` bytes.
unfoldable pub same_bytes : ℕ → List ℕ → List ℕ → Bool
same_bytes zero a b = true
same_bytes (suc n) [] b = true
same_bytes (suc n) (x ∷ a) [] = true
same_bytes (suc n) (x ∷ a) (y ∷ b) = x == y && same_bytes n a b

-- The tests that a cached entry must pass, after its access time was set.
unfoldable pub resumable : Time → Ssl → SessionEntry → Bool
resumable now s e =
    same_bytes (Prim.Native.Nat.min s.session_id_len max_session_id_size) e.id s.session_id
    && leb (diff_secs e.start_time now) 86400
    && e.in_use == 0
    && e.maj_ver == s.maj_ver
    && e.min_ver == s.min_ver

-- `matrixResumeSession`
unfoldable pub resume_session : Time → Ssl → Table → Result
resume_session now s t =
    let i = id_index s.session_id in
    let e = entry t i in
    if not s.flags.server || s.session_id_len == 0
    then record { ret = none; ssl = s; table = t }
    else if leb table_size i || is_null e.cipher
    then record { ret = none; ssl = s; table = t }
    else if not (resumable now s e)
    then record { ret = none; ssl = s; table = set t i (record e { access_time = now }) }
    else record {
      ret = some 0;
      ssl = record s { master_secret = e.master_secret; cipher = e.cipher };
      table = set t i (record e { access_time = now; in_use = 1 });
    }

-- `matrixUpdateSession`. Its test of `ssl->sessionId` for NULL never holds: that is an array.
unfoldable pub update_session : Ssl → Table → Result
update_session s t =
    let i = id_index s.session_id in
    let e = entry t i in
    let used : ℕ = if s.flags.closed then 0 else 1 in
    if not s.flags.server
    then record { ret = none; ssl = s; table = t }
    else if leb table_size i
    then record { ret = none; ssl = s; table = t }
    else if s.flags.error
    then record {
      ret = none;
      ssl = s;
      table =
          set t i
            (record e { in_use = used; master_secret = replicate master_size 0; cipher = none });
    }
    else record {
      ret = some 0;
      ssl = s;
      table =
          set t i (record e { in_use = used; master_secret = s.master_secret; cipher = s.cipher });
    }

-- `matrixSslSetResumptionFlag`
unfoldable pub set_resumption_flag : Ssl → ℕ → Table → Result
set_resumption_flag s flag t =
    let i = id_index s.session_id in
    let e = entry t i in
    let used : ℕ = if s.flags.closed then 0 else 1 in
    if not s.flags.server
    then record { ret = none; ssl = s; table = t }
    else if leb table_size i
    then record { ret = none; ssl = s; table = t }
    else if s.flags.error
    then record { ret = none; ssl = s; table = set t i (record e { in_use = used }) }
    else record { ret = some 0; ssl = s; table = set t i (record e { in_use = used; flag = flag }) }

-- `matrixSslGetResumptionFlag`: the option is the flag written through the pointer, at return 0.
unfoldable pub get_resumption_flag : Ssl → Table → Result
get_resumption_flag s t =
    let i = id_index s.session_id in
    let e = entry t i in
    let used : ℕ = if s.flags.closed then 0 else 1 in
    if not s.flags.server
    then record { ret = none; ssl = s; table = t }
    else if leb table_size i
    then record { ret = none; ssl = s; table = t }
    else if s.flags.error
    then record { ret = none; ssl = s; table = set t i (record e { in_use = used }) }
    else record { ret = some e.flag; ssl = s; table = set t i (record e { in_use = used }) }
