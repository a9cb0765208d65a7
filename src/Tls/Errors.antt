-- ===== src/Tls/Errors.antt =====
-- The errors of a handshake: `ClassifySSLError` of internal/core/sslerr.go, and in tls/ the classification
-- `classifyHandshakeErr` and the end of `HandshakeContext` in tls.go, with the kinds of errors.go. How an
-- error code is made of a library and a reason is a parameter.
pub mod Classified
use tongsuo_go.Base.{ℕ, List, [], ◌∷◌, Option, none, some, Bool, true, false, if◌then◌else◌, ◌==◌}
use tongsuo_go.Base.Signed.{ℤ, pos, negsuc}
use tongsuo_go.Base.Dict.{String}
use tongsuo_go.Tls.State.{is_positive}

pub data SslErrorClass : Type 0 where
  class_other class_version class_cipher class_peer_verify class_network : SslErrorClass

pub data HandshakeErrorKind : Type 0 where
  kind_other kind_version kind_cipher kind_peer_verify kind_network : HandshakeErrorKind

-- `SSLOperationError` without its wrapped error.
pub record Operation : Type 0 where
  pub name : String
  pub ssl_code : ℤ
  pub verify_code : ℤ
  pub codes : List ℕ

-- `HandshakeError` without its wrapped error.
pub record Details : Type 0 where
  pub ssl_code : ℤ
  pub verify_code : ℤ
  pub native_errors : List ℕ
  pub op : String
  pub kind : HandshakeErrorKind

-- An error of Go with the chain of the errors that it wraps, which nil ends. A `HandshakeError` without a
-- wrapped error ends in a sentinel, which no test here looks for.
pub data GoError (E : Type 0) : Type 0 where
  nil_error canceled deadline_exceeded end_of_file unexpected_end_of_file : GoError E
  other_error : E → GoError E → GoError E
  operation_error : Operation → GoError E → GoError E
  handshake_error : Details → GoError E → GoError E

-- `ErrGetLib` and `ErrGetReason`.
pub record ErrorCodes : Type 0 where
  pub lib_of : ℕ → ℕ
  pub reason_of : ℕ → ℕ

unfoldable pub class_of_reason : ℕ → SslErrorClass
class_of_reason reason =
    if reason == 158
    then class_cipher
    else if reason == 229
    then class_cipher
    else if reason == 258
    then class_version
    else if reason == 166
    then class_version
    else if reason == 267
    then class_version
    else if reason == 928
    then class_version
    else class_network

unfoldable pub classify_ssl_error : ErrorCodes → ℕ → SslErrorClass
classify_ssl_error native code =
    if code == 0
    then class_other
    else if native.lib_of code == 20
    then class_of_reason (native.reason_of code)
    else if native.lib_of code == 11
    then if native.reason_of code == 101 then class_peer_verify else class_network
    else class_network

unfoldable pub classify_openssl_error : SslErrorClass → HandshakeErrorKind
classify_openssl_error class_version = kind_version
classify_openssl_error class_cipher = kind_cipher
classify_openssl_error class_peer_verify = kind_peer_verify
classify_openssl_error class_network = kind_network
classify_openssl_error class_other = kind_other

-- `candidate != HandshakeErrorNetwork && candidate != HandshakeErrorOther`
unfoldable pub is_decisive : HandshakeErrorKind → Bool
is_decisive kind_network = false
is_decisive kind_other = false
is_decisive kind_version = true
is_decisive kind_cipher = true
is_decisive kind_peer_verify = true

-- The loop over the codes, with its break.
unfoldable pub scan_codes : ErrorCodes → HandshakeErrorKind → List ℕ → HandshakeErrorKind
scan_codes native kind [] = kind
scan_codes native kind (code ∷ codes) =
    let candidate = classify_openssl_error (classify_ssl_error native code) in
    elim (is_decisive candidate) [ true ↦ candidate | false ↦ scan_codes native kind codes ]

unfoldable pub is_syscall : ℤ → Bool
is_syscall (pos n) = n == 5
is_syscall (negsuc n) = false

-- The two tests before the loop.
unfoldable pub kind_before_codes : Operation → HandshakeErrorKind
kind_before_codes o =
    if is_positive o.verify_code
    then kind_peer_verify
    else if is_syscall o.ssl_code
    then kind_network
    else kind_other

module _ {E : Type 0} where
  -- `errors.As(err, &existing)`
  unfoldable pub has_handshake_error : GoError E → Bool
  has_handshake_error (handshake_error d e) = true
  has_handshake_error (operation_error o e) = has_handshake_error e
  has_handshake_error (other_error a e) = has_handshake_error e
  has_handshake_error e = false

  -- `errors.As(err, &nativeErr)`
  unfoldable pub find_operation : GoError E → Option Operation
  find_operation (operation_error o e) = some o
  find_operation (handshake_error d e) = find_operation e
  find_operation (other_error a e) = find_operation e
  find_operation e = none

  -- `errors.Is(err, io.EOF) || errors.Is(err, io.ErrUnexpectedEOF)`
  unfoldable pub is_end_of_file : GoError E → Bool
  is_end_of_file end_of_file = true
  is_end_of_file unexpected_end_of_file = true
  is_end_of_file (operation_error o e) = is_end_of_file e
  is_end_of_file (handshake_error d e) = is_end_of_file e
  is_end_of_file (other_error a e) = is_end_of_file e
  is_end_of_file e = false

  -- `errors.Is(err, context.Canceled) || errors.Is(err, context.DeadlineExceeded)`
  unfoldable pub is_context_error : GoError E → Bool
  is_context_error canceled = true
  is_context_error deadline_exceeded = true
  is_context_error (operation_error o e) = is_context_error e
  is_context_error (handshake_error d e) = is_context_error e
  is_context_error (other_error a e) = is_context_error e
  is_context_error e = false

  unfoldable pub details : ErrorCodes → String → GoError E → Option Operation → Details
  details native op e none = record {
    ssl_code = pos 0;
    verify_code = pos 0;
    native_errors = [];
    op = op;
    kind = if is_end_of_file e then kind_network else kind_other;
  }
  details native op e (some o) = record {
    ssl_code = o.ssl_code;
    verify_code = o.verify_code;
    native_errors = o.codes;
    op = op;
    kind = scan_codes native (kind_before_codes o) o.codes;
  }

  unfoldable pub classify_handshake_err : ErrorCodes → String → GoError E → GoError E
  classify_handshake_err native op nil_error = nil_error
  classify_handshake_err native op e =
      if has_handshake_error e
      then e
      else handshake_error (details native op e (find_operation e)) e

  -- What `HandshakeContext` returns for the error that it keeps; `op` is "HandshakeContext".
  unfoldable pub returned_error : ErrorCodes → String → GoError E → GoError E
  returned_error native op nil_error = nil_error
  returned_error native op e = if is_context_error e then e else classify_handshake_err native op e
