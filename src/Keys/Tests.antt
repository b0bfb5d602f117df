-- ===== src/Keys/Tests.antt =====
-- The theorems on keys, MACs and the Finished hash at concrete secrets.
use robin_mesh_v.Prelude.{
  ℕ, ◌≡◌, ◌<◌, ◌↔◌, refl, Bool, true, false, Option, none, some, List, [], ◌∷◌, length,
}
use robin_mesh_v.Cipher.{des3_sha, rc4_md5}
use robin_mesh_v.Arc4.{Arc4}
use robin_mesh_v.Keys.{
  Sec, key_pieces, key_turns, key_len, max_key_block_size, lay_out, create_key_block, activate_read,
  activate_write, init_encrypt, init_decrypt,
}
use robin_mesh_v.Keys.Hmac.{next_seq, count_byte}
use robin_mesh_v.Keys.Secrets.{create_key_block_overrun}
use robin_mesh_v.Keys.Suites.{InStep, activate_read-activate_write}

abbrev early : List ℕ
early = 1 ∷ 2 ∷ []

abbrev hello_random : List ℕ
hello_random = 3 ∷ []

abbrev reply_random : List ℕ
reply_random = 4 ∷ []

abbrev no_context : Arc4
no_context = record { state = []; byte_count = 0; x = 0; y = 0 }

abbrev blank : Sec
blank = record {
  key_block = [];
  r_mac_ptr = 0;
  w_mac_ptr = 0;
  r_key_ptr = 0;
  w_key_ptr = 0;
  r_iv_ptr = 0;
  w_iv_ptr = 0;
  read_mac = [];
  write_mac = [];
  read_key = [];
  write_key = [];
  read_iv = [];
  write_iv = [];
  rem_seq = [];
  seq = [];
  encrypt_ctx = no_context;
  decrypt_ctx = no_context;
}

abbrev long_block : Sec
long_block =
    lay_out des3_sha true
      (record blank { key_block = key_pieces early reply_random hello_random 7 0 })

long_block_made :
    create_key_block des3_sha true hello_random reply_random early blank ≡ some long_block
unfolding create_key_block key_turns
long_block_made = refl

create_key_block_overrun_example :
    (max_key_block_size < length long_block.key_block) ↔ (96 < key_len des3_sha)
create_key_block_overrun_example =
    create_key_block_overrun des3_sha true hello_random reply_random early blank long_block
      long_block_made

-- The sequence number carries from byte to byte.
carries : next_seq (0 ∷ 255 ∷ 255 ∷ []) ≡ (1 ∷ 0 ∷ 0 ∷ [], false)
unfolding next_seq count_byte
carries = refl

-- The keys of a server and of its client, with RC4 and MD5.
abbrev short_block : Bool → Sec
short_block a =
    lay_out rc4_md5 a (record blank { key_block = key_pieces early reply_random hello_random 4 0 })

short_block_made :
    (a : Bool)
    → create_key_block rc4_md5 a hello_random reply_random early blank ≡ some (short_block a)
unfolding create_key_block key_turns
short_block_made a = refl

abbrev or_blank : Option Sec → Sec
or_blank none = blank
or_blank (some s) = s

abbrev writing_keys : Sec
writing_keys = or_blank (activate_write init_encrypt rc4_md5 (short_block true))

abbrev reading_keys : Sec
reading_keys = or_blank (activate_read init_decrypt rc4_md5 (short_block false))

activated_to_write : activate_write init_encrypt rc4_md5 (short_block true) ≡ some writing_keys
unfolding activate_write init_encrypt lay_out
activated_to_write = refl

activated_to_read : activate_read init_decrypt rc4_md5 (short_block false) ≡ some reading_keys
unfolding activate_read init_decrypt lay_out
activated_to_read = refl

activate_read-activate_write_example :
    InStep 16 writing_keys reading_keys × (writing_keys.encrypt_ctx.byte_count ≡ 0)
activate_read-activate_write_example =
    activate_read-activate_write rc4_md5 true hello_random reply_random early blank
      (short_block true) blank (short_block false) writing_keys reading_keys refl refl
      (short_block_made true) (short_block_made false) activated_to_write activated_to_read
