-- ===== src/Nntp/Errors.antt =====
-- internal/nntp/errors.go: the classification of failures.
mod Kinds
mod Tests
use nzb_indexer.Base.{ℕ, Bool, true, false, ◌||◌, Option, none, some, ◌==◌, if◌then◌else◌}

-- A non-nil `error`, by what `errors.As` and `errors.Is` can find in it. `proto code` is a
-- `*textproto.Error`, `stream` a `textproto.ProtocolError`, `network` a `net.Error` and `op_error`
-- a `*net.OpError`; `wrap` is an error made with `%w` and `join` one of `errors.Join`.
pub data Error : Type 0 where
  proto : ℕ → Error
  stream eof unexpected_eof network op_error : Error
  canceled no_conns pool_closed no_healthy_server no_yenc_header : Error
  other : ℕ → Error
  wrap : Error → Error
  join : Error → Error → Error

pub data ErrorKind : Type 0 where
  none_kind connection auth protocol retention : ErrorKind

abbrev or_else {ℓ} : {A : Type ℓ} → Option A → Option A → Option A
or_else none y = y
or_else (some x) y = some x

-- `errors.As(err, &protoErr)`: the status code of the first `*textproto.Error` in the tree.
unfoldable pub as_proto : Error → Option ℕ
as_proto (proto code) = some code
as_proto (wrap e) = as_proto e
as_proto (join e f) = or_else (as_proto e) (as_proto f)
as_proto _ = none

-- `errors.As` and `errors.Is` for the kinds of transport failure that isConnFatal looks for.
unfoldable pub is_transport : Error → Bool
is_transport stream = true
is_transport eof = true
is_transport unexpected_eof = true
is_transport network = true
is_transport op_error = true
is_transport (wrap e) = is_transport e
is_transport (join e f) = is_transport e || is_transport f
is_transport _ = false

-- isConnFatal of a non-nil error: the tests for transport failures precede a default of true.
fatal_by_stream : Option ℕ → Bool → Bool
fatal_by_stream (some code) transport = false
fatal_by_stream none transport = if transport then true else true

unfoldable pub is_conn_fatal : Option Error → Bool
unfolding fatal_by_stream as_proto is_transport
is_conn_fatal none = false
is_conn_fatal (some e) = fatal_by_stream (as_proto e) (is_transport e)

-- The inner switch of classifyError.
kind_of_code : ℕ → ErrorKind
kind_of_code code =
    if code == 480 || code == 481 || code == 482 || code == 502
    then auth
    else if code == 430
    then retention
    else protocol

kind_of : Option ℕ → Bool → ErrorKind
unfolding kind_of_code
kind_of (some code) fatal = kind_of_code code
kind_of none fatal = if fatal then connection else protocol

unfoldable pub classify_error : Option Error → ErrorKind
unfolding kind_of is_conn_fatal
classify_error none = none_kind
classify_error (some e) = kind_of (as_proto e) (is_conn_fatal (some e))

abbrev permanent_kind : ErrorKind → Bool
permanent_kind retention = true
permanent_kind auth = true
permanent_kind _ = false

pub is_permanent : Option Error → Bool
is_permanent err = permanent_kind (classify_error err)

abbrev unrecognized_code : Option ℕ → Bool
unrecognized_code none = false
unrecognized_code (some code) = code == 400 || code == 500 || code == 501

pub is_unrecognized : Error → Bool
is_unrecognized err = unrecognized_code (as_proto err)
