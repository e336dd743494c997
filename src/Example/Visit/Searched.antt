-- ===== src/Example/Visit/Searched.antt =====
-- `SyncListFeatures` of route_guide_cb_client.cc with the service of route_guide_cb_server.cc, over
-- grpc_cb_core.
use grpc_cb.Base.{
  ℕ, ◌<◌, ◌≡◌, refl, sym, ap, ◌∙◌, true, Option, none, some, List, [], ◌∷◌, Bytes, codes, ◌>>=◌,
  length,
}
use mathlib.Core.Path.{subst}
use grpc_cb.Base.Int.{ℤ, pos}
use grpc_cb.ProtoUtils.Reader.{SliceReader}
use grpc_cb.ProtoUtils.Messages.{ParserApi, IsParsed, deserialize_iff}
use grpc_cb.Client.{ReaderCore}
use grpc_cb.Client.Opening.{Opened, sync_reader, client_sync_reader}
use grpc_cb.Client.Reading.{ReaderView}
use grpc_cb.Server.{WriterCore}
use grpc_cb.Example.Points.{Rectangle, Feature}
use grpc_cb.Example.Wire.{Codec, WriterView, AllText, NoStrings}
use grpc_cb.Example.Features.{list_features}
use grpc_cb.Example.Features.Listed.{Picks, Picks-filter, list_features-receive}
use grpc_cb.Example.Dispatch
use grpc_cb.Example.Dispatch.{Effect, calls_list_features, closes, call_method, get_method_name}
use grpc_cb.Example.Served.{read_from}
use grpc_cb.Example.Stub.{ServiceStub, sync_list_features}
use grpc_cb.Example.Visit.{searched, sync_search, search_features}

module _ (features : Codec Feature) (core : WriterCore) (slices : SliceReader)
    (points api : ParserApi slices) (unset : slices.State) (read : api.Msg → Rectangle)
    (feature_vector : List Feature) where
  -- What a call of `ListFeatures` does with the service of the example and a writer; the other methods
  -- have no such writer.
  abbrev perform : Effect slices points api unset → core.State → Option core.State
  perform (calls_list_features request) w =
      some (list_features features core (read request) feature_vector w)
  perform (closes status) w = some (core.async_close status w)
  perform _ w = none

  abbrev performs : List (Effect slices points api unset) → core.State → Option core.State
  performs [] w = some w
  performs (e ∷ es) w = perform e w >>= performs es

  abbrev pub call_list_features : slices.Buffer → core.State → Option core.State
  call_list_features b writer =
      call_method slices points api unset true true true 1 (some b)
      >>= (λ effects. performs effects writer)

  call_list_features-handle :
      (b : slices.Buffer) (w : core.State)
      → IsParsed slices api unset (some b) (pos 0)
      → call_list_features b w
        ≡ some (list_features features core (read_from slices api unset read b) feature_vector w)
  unfolding call_method Dispatch.list_features
  call_list_features-handle b w p =
      rw ((deserialize_iff slices api unset (some b) (pos 0)).1 p) refl

module _ {Channel Queue StatusCb : Type 0} (rectangles : Codec Rectangle) (features : Codec Feature)
    (reader : ReaderCore) (reads : ReaderView reader)
    (connect : Opened Channel Queue StatusCb → reader.State) (core : WriterCore)
    (view : WriterView core.write) (slices : SliceReader) (points api : ParserApi slices)
    (unset : slices.State) (read : api.Msg → Rectangle) where
  -- The request strings of `ListFeatures` come to `CallMethod` in buffers from which protobuf reads the
  -- messages back, each with this writer, to which nothing has been written; what is written comes to the
  -- reader that has been opened with the request.
  pub record IsAnswered (fresh : core.State) (call : slices.Buffer → core.State → Option core.State)
      : Type 0 where
    pub buffer : Bytes → slices.Buffer
    pub parsed :
        (m : Rectangle)
        → rectangles.is_text m ≡ true
        → IsParsed slices api unset (some (buffer (rectangles.serialize m))) (pos 0)
    pub same :
        (m : Rectangle)
        → rectangles.is_text m ≡ true
        → read_from slices api unset read (buffer (rectangles.serialize m)) ≡ m
    pub unwritten : view.written fresh ≡ []
    pub delivered :
        (channel : Channel) (b : Bytes) (timeout_ms : ℤ) (w : core.State)
        → call (buffer b) fresh ≡ some w
        → reads.pending (
            connect
              (sync_reader channel (codes "/routeguide.RouteGuide/ListFeatures") b timeout_ms))
          ≡ view.written w

  -- `SyncListFeatures` from the client's call to its result, through the stub, `CallMethod`, the parsing
  -- of the request, the handler, the writer and the loop that reads: a client that is connected to the
  -- service of the example, whose writer accepts all messages, finds, if their names are UTF-8 (and a
  -- rectangle is a message without strings) and the loop has more rounds than there are of them, the
  -- features whose locations lie between the corners of its rectangle, no others, in the order of the
  -- database, and gets the status that the call ends with.
  pub search_features-call_method :
      (stub : ServiceStub Channel Queue) (feature_vector found : List Feature) (n : ℕ)
      (fresh : core.State)
      → IsAnswered fresh
          (call_list_features features core slices points api unset read feature_vector)
      → view.accepts (list_features features core searched feature_vector fresh) ≡ true
      → Picks searched feature_vector found
      → AllText features found
      → NoStrings rectangles
      → length found < n
      → search_features rectangles features stub reader connect n
        ≡ some (
          found,
          reads.final (
              connect (
                sync_reader stub.channel
                  (codes "/routeguide.RouteGuide/ListFeatures")
                  (rectangles.serialize searched)
                  stub.call_timeout_ms)),
        )
  unfolding search_features sync_search sync_list_features get_method_name client_sync_reader
  search_features-call_method stub feature_vector found n fresh a accepted picked texts numbers
        enough =
      let same = Picks-filter searched picked in
      let status = reads.final (
        connect (
          sync_reader stub.channel (codes "/routeguide.RouteGuide/ListFeatures")
            (rectangles.serialize searched) stub.call_timeout_ms)) in
      let request = rectangles.serialize searched in
      let written = a.delivered stub.channel request stub.call_timeout_ms _ (
        call_list_features-handle features core slices points api unset read feature_vector
          (a.buffer request) fresh (a.parsed searched (numbers searched))
        ∙ ap (λ m. some (list_features features core m feature_vector fresh))
            (a.same searched (numbers searched))) in
      list_features-receive features core view searched feature_vector fresh reader reads _ n
        features.initial a.unwritten accepted written (subst (λ l. length l < n) same enough)
        (subst (AllText features) same texts)
      ∙ ap (λ l. some (l, status)) (sym same)
