-- ===== src/Lib.antt =====
-- A verification library for tongsuo-go, the Go binding of the Tongsuo cryptographic library.
--
-- The repository wraps a native library by cgo; its own logic is in codecs, parsers and stores that
-- are plain Go. Eight of these parts are modelled, and share only the helpers of Base.
--
-- CertPol: the certificatePolicies codec, x509/certpol.go and x509/certpol_der.go. Tlv has `derLen`,
--   `derTLV` and `derCursor.read`; Integer `encodeInteger` and `decodeInteger`; Oid `encodeOID`,
--   `decodeOID`, `base128` and `readBase128`; Encode the functions from `encodeCertificatePolicies`
--   down; DisplayText `decodeDisplayText`; Parse the functions from `parseCertificatePolicies` down.
--   A Go string is the list of its bytes, and a cursor is the list of the bytes that it has not
--   consumed. The loops of the parser run on fuel, as many rounds as there are bytes: an element that
--   is read takes two bytes or more, and an arc of an OID one. The loops over a number, `v >>= 8` and
--   `v >>= 7`, run on the number itself. RoundTrip has the proofs from the notice to the whole
--   extension.
-- Asn1: the parser of the DER viewer. Header has `parseHeader` and `parseLength` and Recursive has
--   `Parse` and `parseNode` of asn1/asn1.go; Limits has `ParseWithLimits` of asn1/limits.go, whose loop
--   keeps a stack. The loop runs on twice as many rounds as there are bytes: each node is pushed once
--   and popped once and takes two bytes or more. Simulation relates the loop to the recursion.
-- Keystore: `MemoryStore` of keystore/store.go and the handles of keystore/handle.go. A `*Handle` is an
--   address on a heap, a map is an association list (Base.Dict), and a method is one step, since it
--   holds the store's lock. Keys, times and decoders are abstract types, and the `Algorithm` method of
--   a key is a parameter.
-- Core: internal/core. Handle has `Handle` of handle.go, which owns a native object: calls under its
--   lock, and the garbage collector, are a sequence of events. World has the native library, a
--   parameter that may fail at any call, and the actions of the methods, a state monad with Go's
--   errors; it counts the calls that follow or free a pointer that is not live. Native has the Go
--   functions of internal/native/binding_cipher.go and binding_digest.go that do more than call C. Cipher
--   and Digest have the descriptors and contexts of cipher.go and digest.go, each constructor and method
--   with its checks, native calls and error paths in their order. Contexts has all contexts that a
--   program uses, with a step for each call on them: Invariant keeps them together with the live
--   pointers, Abstract is the table of open contexts that they implement, Answers the error
--   that each call returns, Refused and Closed the calls on a closed context, Closing closes them all.
-- Meta: meta/. Hex and Base64 have the parts of Go's encoding/hex and encoding/base64 that it calls;
--   Encoding `ParseEncoding`, `Encode` and `Decode` of encoding.go; Sink the streaming writer of sink.go;
--   Source source.go; Passphrase passphrase.go. Files, writers, streams and the environment are
--   parameters.
-- Asym: `sm2C1Len`, `parseSM2Raw` and `buildSM2Raw` of asym/sm2.go, the two orders of a raw SM2
--   ciphertext. The native expansion of a compressed point is a parameter.
-- Sym: sym/. Padding has `normalizePadding`, `zeroPad` and `cryptPadded` of padding.go, with the native
--   cipher context as a parameter; Modes `paddingsForMode`, and of sym.go `checkPadding`, `Supports` and
--   `Paddings`, with the table of the algorithms as a parameter.
-- Tls: tls/. State has `captureState` of state.go with the verify callbacks, Handshake
--   `HandshakeContext` of tls.go up to the classification of its error, Errors that classification with
--   `ClassifySSLError` of internal/core/sslerr.go, Suites `configureCiphers` of suites.go.
--   The native handshake, the setters of the native context and what the call sees of its Go context are
--   parameters; that a slice is copied has no trace, since slices are values.
-- Base: Booleans, lists, results, numbers in base 256 and 128, 64-bit integers, decimal text and maps.
--
-- An `int` of the codec is an integer in the range of 64 bits, and an unsigned 64-bit sum wraps at
-- 2^64. The length bytes of a header are four at most, so that a length is below 2^32.
--
-- Not modelled: the cgo bindings and what only calls them (the rest of internal/native and of
-- internal/core, mac, kdf, rand, the rest of sym, asym and tls, ecdh, pkcs and x509), whose behaviour is
-- that of the native library; the one-line constructors of the static algorithm descriptors; the
-- printing of a tree in asn1 and `Dump` in meta; `List`, `Close` and the JSON form of handles in keystore.
pub mod Base
pub mod Asn1
pub mod Asym
pub mod CertPol
pub mod Core
pub mod Keystore
pub mod Meta
pub mod Sym
pub mod Tls
