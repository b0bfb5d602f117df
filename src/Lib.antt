-- ===== src/Lib.antt =====
-- A verification library for the SSLv3 core of libmatrixssl-nothread, the MatrixSSL fork that this
-- firmware builds for its mesh nodes. Paths are below packages/libmatrixssl-nothread/src/.
--
-- A connection is an ssl_t. Bytes from the network go to matrixSslDecode (src/sslDecode.c), the record
-- layer: it takes one record after the other, decrypts it, checks MAC and padding, and acts on its
-- type. What a connection sends comes from src/sslEncode.c: application data from matrixSslEncode, the
-- flights of handshake messages and the alerts from sslEncodeResponse, each a header, the message, its
-- MAC and padding, encrypted. Records of handshake messages go on to parseSSLHandshake
-- (src/sslDecode.c), the state machine that reads the messages of client and server. A server keeps
-- finished sessions in a table that all connections share (src/matrixSsl.c), which a ClientHello and a
-- ClientKeyExchange read and write. The suites come from src/cipherSuite.c; their keys, the MACs and the
-- Finished hash come from src/sslv3.c, over src/crypto/peersec/md5.c and sha1.c. The DER parser of
-- src/pki/asn1.c is what certificates and keys are read with; src/crypto/peersec/base64.c turns the text
-- of their files into DER first. src/crypto/peersec/arc4.c is the stream cipher of two of the suites, and
-- src/crypto/peersec/mpi.c computes with the big integers of RSA, and src/crypto/peersec/rsa.c pads what it encrypts.
--
-- The files:
--
--   Prelude       names, lists, Boolean tests and integers that all modules share
--   Cipher        src/cipherSuite.c: the table of suites, sslGetCipherSpec, sslGetCipherSpecList,
--                 sslGetCipherSpecListLen
--   Ssl           src/matrixInternal.h: ssl_t, sslSec_t and sslRec_t as records; each bit of flags is a
--                 Boolean field
--   Base64        src/crypto/peersec/base64.c: ps_base64_decode; Steps, Bound and Encode are proofs
--   Arc4          src/crypto/peersec/arc4.c: matrixArc4Init and matrixArc4; Reference is RC4 as published,
--                 Xor, Stream and Calls are proofs
--   Session       src/matrixSsl.c: sessionTable and matrixRegisterSession, matrixClearSession,
--                 matrixResumeSession, matrixUpdateSession, matrixSslSetResumptionFlag and
--                 matrixSslGetResumptionFlag, each a function of connection and table; the children
--                 hold the theorems on ids, registering, resuming, the two together, and updating
--   Memory, Asn   src/pki/asn1.c: pointers into an allocation whose end is written out, so that a read
--                 past it is a result of its own, and every function of the file
--   Handshake     parseSSLHandshake: Base holds the state and what is taken from outside, ClientHello,
--                 KeyExchange and Client one function for each message and step; the others are proofs:
--                 Hello, Moves and Certificates on single messages, Entry on the type test, Order on a
--                 whole message, Loop on a record
--   Record        matrixSslDecode: Base holds the buffers and what is taken from outside; Open is about
--                 MAC and padding, Each and Deliver about one record, Run about a whole call
--   Encode        src/sslEncode.c: Base holds what every record is written with and what is taken from
--                 outside, Writers one function for each message, Encode the flights of
--                 sslEncodeResponse and matrixSslEncode, matrixSslEncodeClientHello,
--                 matrixSslEncodeHelloRequest and matrixSslEncodeClosureAlert
--   Link          the two ends of a connection together: Peer says what one side asks of the other's
--                 ciphers and sizes, Sealed is about a record as it is written, Opened about a record as
--                 it is read, Sent about both; Data and Alert are about whole calls, Hello about the
--                 ClientHello, Rc4 and Exchange about the suites with RC4
--   Hash          what md5.c and sha1.c of src/crypto/peersec/ share; Md5 and Sha1 are the two; Stream
--                 and Final are proofs about contexts, Whole about both hashes
--   Keys          src/sslv3.c, and the functions of src/cipherSuite.c and src/matrixSsl.c that copy and
--                 use the keys; Hmac has the MACs; Secrets, Mac, Finished and Suites are proofs about the
--                 key material, the MACs, the Finished hash and the two suites with RC4
--   Mpi           src/crypto/peersec/mpi.c: mp_grow, mp_clamp, mp_cmp, mp_add, mp_sub, mp_mul_d and what
--                 they call; Value is about the number that digits stand for, Compare and Order about
--                 comparisons, Sign about integers, Refine about the operations on them; Shift has
--                 mp_mul_2, mp_div_2, mp_lshd, mp_rshd; Bits has mp_copy, mp_mul_2d, mp_div_2d,
--                 mp_read_unsigned_bin, mp_to_unsigned_bin, mp_unsigned_bin_size, its children are the proofs on these
--   Rsa           src/crypto/peersec/rsa.c: sslPadRSA and sslUnpadRSA; Padding and RoundTrip are proofs
--   Sample        concrete connections; the modules called Tests apply the theorems to them
--
-- Bytes are native numbers, buffers are lists of them. A server's or client's error is a value: `stop`
-- in the handshake, `respond` in the record layer, `err` in the DER parser. `fault`, `parse_fault` and
-- `crashed` stand for reads outside a record or through a null pointer.
--
-- Loops whose end is not visible run on fuel. The loop over records has the length of the input plus
-- one, since each record takes two bytes or more; the loop over messages has the length of the record
-- plus one, since each message takes its type byte; the two loops over lists inside a message have the
-- list's length, since each item takes its length bytes; the loop that writes a big
-- integer has four times its digits and one, since each round takes eight bits.
--
-- Parameters of the model: the ciphers with their states, for the decoder also the encoders that it
-- calls, the X.509 functions of src/pki/x509.c, the encryption and decryption of the premaster secret,
-- the master secret and Finished hash that the handshake takes, the clock, random bytes,
-- and whether memory can be allocated.
--
-- Not modelled: the X.509 and key parsers, the ciphers and hashes below src/crypto other than Base64,
-- RC4, MD5 and SHA-1, the products, quotients and powers of big integers, with them ssl_rsa_crypt and its
-- callers, the creation and deletion of connections, and the operating system layer. The other packages
-- of the repository are scripts and patches in other languages.
pub mod Prelude
pub mod Base64
pub mod Arc4
pub mod Cipher
pub mod Ssl
pub mod Session
pub mod Memory
pub mod Asn
pub mod Sample
pub mod Handshake
pub mod Record
pub mod Encode
pub mod Keys
pub mod Link
pub mod Hash
pub mod Mpi
pub mod Rsa
