-- ===== src/Example/Dispatch.antt =====
-- `Service::CallMethod` of examples/cpp_cb/route_guide/route_guide.grpc_cb.pb.cc and the functions
-- that it calls. The two streams from the server's user, and what it overrides, are parameters.
use grpc_cb.Base.{
  ℕ, zero, suc, Bool, Option, none, some, List, [], ◌∷◌, Bytes, codes, if◌then◌else◌, get_elem?,
}
use grpc_cb.Base.Int.{pos}
use grpc_cb.ProtoUtils.Status.{Status, unimplemented, is_ok}
use grpc_cb.ProtoUtils.Reader.{SliceReader, make_reader}
use grpc_cb.ProtoUtils.Messages.{ParserApi, limit, deserialize}

-- `method_names`; an index out of range is a failed assert.
abbrev pub method_names : List Bytes
method_names =
    codes "/routeguide.RouteGuide/GetFeature"
    ∷ codes "/routeguide.RouteGuide/ListFeatures"
    ∷ codes "/routeguide.RouteGuide/RecordRoute"
    ∷ codes "/routeguide.RouteGuide/RouteChat"
    ∷ []

unfoldable pub get_method_name : ℕ → Option Bytes
get_method_name method_index = get_elem? method_names method_index

module _ (slices : SliceReader) (points rectangles : ParserApi slices) (unset : slices.State) where
  -- What the service does with a call: it gives it to a virtual function, with the request of a
  -- method that has one, starts the reader that the function returned, replies an error, or closes
  -- the writer with a status.
  pub data Effect : Type 0 where
    calls_get_feature : points.Msg → Effect
    calls_list_features : rectangles.Msg → Effect
    calls_record_route : Effect
    calls_route_chat : Effect
    starts_record_route : Effect
    starts_route_chat : Effect
    replies_error : Status → Effect
    closes : Status → Effect

  -- The message that `Deserialize` has parsed when it returns.
  abbrev pub message_of : (api : ParserApi slices) → slices.Buffer → api.Msg
  message_of api buffer = (api.parse_from (limit (pos 0)) (make_reader slices unset buffer)).2

  unfoldable pub get_feature : slices.Buffer → List Effect
  get_feature request_buffer =
      let status = deserialize slices points unset (some request_buffer) (pos 0) in
      if is_ok status
      then calls_get_feature (message_of points request_buffer) ∷ []
      else replies_error status ∷ []

  unfoldable pub list_features : slices.Buffer → List Effect
  list_features request_buffer =
      let status = deserialize slices rectangles unset (some request_buffer) (pos 0) in
      if is_ok status
      then calls_list_features (message_of rectangles request_buffer) ∷ []
      else closes status ∷ []

  -- Whether `call_sptr` is set, and whether the virtual function returns a reader, are arguments; `none`
  -- is a failed assert.
  unfoldable pub record_route : Bool → Bool → Option (List Effect)
  record_route call reader =
      if call
      then some (calls_record_route ∷ (if reader then starts_record_route ∷ [] else []))
      else none

  unfoldable pub route_chat : Bool → Bool → Option (List Effect)
  route_chat call reader =
      if call
      then some (calls_route_chat ∷ (if reader then starts_route_chat ∷ [] else []))
      else none

  -- `CallMethod`; `none` is a failed assert. The constructors of `ServerReplier` and `ServerWriter` assert
  -- that `call_sptr` is set.
  unfoldable pub call_method : Bool → Bool → Bool → ℕ → Option slices.Buffer → Option (List Effect)
  unfolding get_feature list_features record_route route_chat
  call_method call records chats zero none = some []
  call_method call records chats zero (some request_buffer) =
      if call then some (get_feature request_buffer) else none
  call_method call records chats (suc zero) none = some []
  call_method call records chats (suc zero) (some request_buffer) =
      if call then some (list_features request_buffer) else none
  call_method call records chats (suc (suc zero)) none = record_route call records
  call_method call records chats (suc (suc zero)) (some request_buffer) = none
  call_method call records chats (suc (suc (suc zero))) none = route_chat call chats
  call_method call records chats (suc (suc (suc zero))) (some request_buffer) = none
  call_method call records chats (suc (suc (suc (suc n)))) request_buffer = none

  -- The virtual functions as the generator writes them: each answers that it is not implemented,
  -- and returns no reader.
  unfoldable pub default_effect : Effect → List Effect
  default_effect (calls_get_feature request) = replies_error unimplemented ∷ []
  default_effect (calls_list_features request) = closes unimplemented ∷ []
  default_effect calls_record_route = replies_error unimplemented ∷ []
  default_effect calls_route_chat = closes unimplemented ∷ []
  default_effect starts_record_route = starts_record_route ∷ []
  default_effect starts_route_chat = starts_route_chat ∷ []
  default_effect (replies_error status) = replies_error status ∷ []
  default_effect (closes status) = closes status ∷ []
