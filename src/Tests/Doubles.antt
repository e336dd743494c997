-- ===== src/Tests/Doubles.antt =====
-- Small objects in place of those of gRPC, protobuf and grpc_cb_core, with which the code can be run.
use grpc_cb.Base.{
  ◌≡◌, refl, sym, Bool, true, false, Option, none, some, List, [], ◌∷◌, ◌++◌, Bytes, codes, ◌==◌,
  if◌then◌else◌, length,
}
use mathlib.Core.Bool.{false≢true}
use grpc_cb.ProtoUtils.Status.{Status}
use grpc_cb.ProtoUtils.Reader.{SliceReader}
use grpc_cb.ProtoUtils.Messages.{MessageApi, ParserApi}
use grpc_cb.Messages.{MessageType}
use grpc_cb.Client.{ReaderCore}
use grpc_cb.Client.Reading.{ReaderView}
use grpc_cb.Server.{ReplierCore}
use grpc_cb.Server.Replying.{Answer, answer, refusal, first, ReplierView}

abbrev next_of : List Bytes → Option (Bytes × List Bytes)
next_of [] = none
next_of (s ∷ ss) = some (s, ss)

abbrev pub slice_list : SliceReader
slice_list = record {
  Buffer = List Bytes;
  State = List Bytes;
  init = λ b. some b;
  next = next_of;
  slices = λ s. s;
  next-nil = λ r e. rw e refl;
  next-cons = λ r s ss e. (ss, rw e refl, refl);
}

abbrev pub texts : MessageApi
texts = record {
  Msg = Bytes;
  byte_size = length;
  bytes = λ m. m;
  stream = λ m. (true, m);
  stream-bytes = λ m e. refl;
}

abbrev joined : List Bytes → Bytes
joined [] = []
joined (s ∷ ss) = s ++ joined ss

-- A message that begins with an `m`; the stream is used up.
abbrev begins_with_m : Bytes → Bool
begins_with_m [] = false
begins_with_m (c ∷ s) = c == b'm'

abbrev pub text_parser : ParserApi slice_list
text_parser = record {
  Msg = Bytes;
  parse_from = λ max r. (begins_with_m (joined r.reader), true, joined r.reader);
  initialization_error = λ m. codes "no m";
}

abbrev parse_tagged : Bytes → Bool × Bytes
parse_tagged [] = (false, [])
parse_tagged (c ∷ s) = if c == b'm' then (true, s) else (false, [])

-- Texts behind an `m`.
abbrev pub tagged : MessageType
tagged = record {
  Msg = Bytes;
  type_name = codes "Tagged";
  initial = [];
  serialize = λ m. b'm' ∷ m;
  parse = parse_tagged;
  is_text = λ m. true;
  parse-serialize = λ m e. refl;
  parse-refused = λ m e. absurd (false≢true (sym e));
}

abbrev read_from : List Bytes × Status → Option Bytes × (List Bytes × Status)
read_from ([], status) = (none, ([], status))
read_from (b ∷ bs, status) = (some b, (bs, status))

abbrev pub stream_core : ReaderCore
stream_core = record {
  State = List Bytes × Status;
  read_one = read_from;
  set_error_status = λ status s. (s.0, status);
  recv_status = λ s. (s.1, s);
}

pub read_from-empty :
    (s : List Bytes × Status) → s.0 ≡ [] → ((read_from s).0 ≡ none) × ((read_from s).1.1 ≡ s.1)
read_from-empty ([], status) e = (refl, refl)
read_from-empty (b ∷ bs, status) e = cc

pub read_from-next :
    (s : List Bytes × Status) {b : Bytes} {bs : List Bytes}
    → s.0 ≡ b ∷ bs
    → ((read_from s).0 ≡ some b) × ((read_from s).1.0 ≡ bs) × ((read_from s).1.1 ≡ s.1)
read_from-next ([], status) e = cc
read_from-next (c ∷ cs, status) e = (cc, cc, refl)

abbrev pub stream_view : ReaderView stream_core
stream_view = record {
  pending = λ s. s.0;
  final = λ s. s.1;
  read_one-empty = read_from-empty;
  read_one-next = read_from-next;
  final-set_error_status = λ status s. refl;
  recv_status-final = λ s. refl;
}

abbrev pub one_answer : ReplierCore
one_answer = record {
  State = Option Answer;
  reply_str = λ b s. first s (answer b);
  reply_error = λ e s. first s (refusal e);
}

abbrev pub one_answer_view : ReplierView one_answer
one_answer_view = record {
  sent = λ s. s;
  sent-reply_str = λ b s. refl;
  sent-reply_error = λ e s. refl;
}
