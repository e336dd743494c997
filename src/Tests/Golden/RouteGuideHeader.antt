-- ===== src/Tests/Golden/RouteGuideHeader.antt =====
-- What the generator writes for examples/protos/route_guide.proto is, byte for byte,
-- examples/cpp_cb/route_guide/route_guide.grpc_cb.pb.h.
use grpc_cb.Base.{◌≡◌, refl, List, [], ◌∷◌, String, bytes_eq}
use grpc_cb.Helpers.Identifier.{filename_identifier}
use grpc_cb.Helpers.Tokenize.{tokenize}
use grpc_cb.Helpers.Replace.{dots_to_colons, dots_to_underscores}
use grpc_cb.Helpers.Strip.{strip_suffix, strip_proto}
use grpc_cb.Helpers.ClassNames.{class_name}
use grpc_cb.Generator.Sample.{route_guide_file, header_text}
use grpc_cb.Tests.Golden.Lines.{text_of}

abbrev file_lines : List String
file_lines =
    "// Generated by the gRPC protobuf plugin."
    ∷ "// If you make any local change, they will be lost." ∷ "// source: route_guide.proto"
    ∷ "#ifndef GRPC_CB_route_5fguide_2eproto__INCLUDED"
    ∷ "#define GRPC_CB_route_5fguide_2eproto__INCLUDED" ∷ ""
    ∷ "#include <grpc_cb/grpc_cb.h>  // Include all for user." ∷ ""
    ∷ "#include \"route_guide.pb.h\"" ∷ "" ∷ "// package routeguide" ∷ "namespace routeguide {" ∷ ""
    ∷ "namespace RouteGuide {  // service RouteGuide" ∷ ""
    ∷ "const ::google::protobuf::ServiceDescriptor& GetServiceDescriptor();" ∷ ""
    ∷ "class Stub : public ::grpc_cb::ServiceStub {" ∷ " public:"
    ∷ "  explicit Stub(const ::grpc_cb::ChannelSptr& channel,"
    ∷ "      const ::grpc_cb::CompletionQueueForNextSptr& cq4n_sptr = nullptr);" ∷ ""
    ∷ "  ::grpc_cb::Status Sync_GetFeature(" ∷ "      const ::routeguide::Point& request,"
    ∷ "      ::routeguide::Feature* response = nullptr);" ∷ ""
    ∷ "  using GetFeature_RespCb = ::grpc_cb::MsgCbTmpl<::routeguide::Feature>;"
    ∷ "  void Async_GetFeature(" ∷ "      const ::routeguide::Point& request,"
    ∷ "      const GetFeature_RespCb& cb = nullptr,"
    ∷ "      const ::grpc_cb::ErrorCb& ecb = nullptr);" ∷ "" ∷ "  using ListFeatures_SyncReader ="
    ∷ "      ::grpc_cb::ClientSyncReader<" ∷ "          ::routeguide::Rectangle,"
    ∷ "          ::routeguide::Feature>;" ∷ "  ListFeatures_SyncReader"
    ∷ "  Sync_ListFeatures(const ::routeguide::Rectangle& request);" ∷ ""
    ∷ "  using ListFeatures_MsgCb = ::grpc_cb::MsgCbTmpl<::routeguide::Feature>;"
    ∷ "  void Async_ListFeatures(const ::routeguide::Rectangle& request,"
    ∷ "      const ListFeatures_MsgCb& msg_cb = nullptr,"
    ∷ "      const ::grpc_cb::StatusCb& status_cb = nullptr);" ∷ ""
    ∷ "  using RecordRoute_SyncWriter =" ∷ "      ::grpc_cb::ClientSyncWriter<"
    ∷ "          ::routeguide::Point," ∷ "          ::routeguide::RouteSummary>;"
    ∷ "  RecordRoute_SyncWriter" ∷ "  Sync_RecordRoute();" ∷ ""
    ∷ "  using RecordRoute_AsyncWriter =" ∷ "      ::grpc_cb::ClientAsyncWriter<"
    ∷ "          ::routeguide::Point," ∷ "          ::routeguide::RouteSummary>;"
    ∷ "  RecordRoute_AsyncWriter" ∷ "  Async_RecordRoute();" ∷ ""
    ∷ "  using RouteChat_SyncReaderWriter =" ∷ "      ::grpc_cb::ClientSyncReaderWriter<"
    ∷ "          ::routeguide::RouteNote," ∷ "          ::routeguide::RouteNote>;"
    ∷ "  RouteChat_SyncReaderWriter" ∷ "  Sync_RouteChat();" ∷ ""
    ∷ "  using RouteChat_AsyncReaderWriter =" ∷ "      ::grpc_cb::ClientAsyncReaderWriter<"
    ∷ "          ::routeguide::RouteNote," ∷ "          ::routeguide::RouteNote>;"
    ∷ "  RouteChat_AsyncReaderWriter" ∷ "  Async_RouteChat(const ::grpc_cb::StatusCb& status_cb);"
    ∷ "" ∷ "};  // class Stub" ∷ "" ∷ "class Service : public ::grpc_cb::Service {" ∷ " public:"
    ∷ "  Service();" ∷ "  virtual ~Service();" ∷ ""
    ∷ "  virtual const std::string& GetMethodName(size_t i) const GRPC_OVERRIDE;"
    ∷ "  virtual void CallMethod(" ∷ "      size_t method_index, grpc_byte_buffer* request_buffer,"
    ∷ "      const ::grpc_cb::CallSptr& call_sptr) GRPC_OVERRIDE;" ∷ "" ∷ " public:"
    ∷ "  using GetFeature_Replier = ::grpc_cb::ServerReplier<" ∷ "      ::routeguide::Feature>;"
    ∷ " protected:" ∷ "  virtual void GetFeature(" ∷ "      const ::routeguide::Point& request,"
    ∷ "      GetFeature_Replier replier);" ∷ " private:" ∷ "  void GetFeature("
    ∷ "      grpc_byte_buffer& request_buffer," ∷ "      const GetFeature_Replier& replier);" ∷ ""
    ∷ " public:" ∷ "  using ListFeatures_Writer = ::grpc_cb::ServerWriter<"
    ∷ "      ::routeguide::Feature>;" ∷ " protected:" ∷ "  virtual void ListFeatures("
    ∷ "      const ::routeguide::Rectangle& request," ∷ "      ListFeatures_Writer writer);"
    ∷ " private:" ∷ "  void ListFeatures(grpc_byte_buffer& request_buffer,"
    ∷ "      const ListFeatures_Writer& writer);" ∷ "" ∷ " public:"
    ∷ "  using RecordRoute_Replier = ::grpc_cb::ServerReplier<"
    ∷ "      ::routeguide::RouteSummary>;"
    ∷ "  using RecordRoute_Reader = ::grpc_cb::ServerReaderForClientSideStreaming<"
    ∷ "      ::routeguide::Point, ::routeguide::RouteSummary>;"
    ∷ "  using RecordRoute_ReaderSptr = std::shared_ptr<RecordRoute_Reader>;" ∷ " protected:"
    ∷ "  virtual RecordRoute_ReaderSptr RecordRoute(" ∷ "      RecordRoute_Replier replier);"
    ∷ " private:" ∷ "  void RecordRoute(const ::grpc_cb::CallSptr& call_sptr);" ∷ "" ∷ " public:"
    ∷ "  using RouteChat_Writer = ::grpc_cb::ServerWriter<" ∷ "      ::routeguide::RouteNote>;"
    ∷ "  using RouteChat_Reader = ::grpc_cb::ServerReaderForBidiStreaming<"
    ∷ "      ::routeguide::RouteNote, ::routeguide::RouteNote>;"
    ∷ "  using RouteChat_ReaderSptr = std::shared_ptr<RouteChat_Reader>;" ∷ " protected:"
    ∷ "  virtual RouteChat_ReaderSptr RouteChat(" ∷ "      RouteChat_Writer writer);" ∷ " private:"
    ∷ "  void RouteChat(const ::grpc_cb::CallSptr& call_sptr);" ∷ "" ∷ " private:"
    ∷ "  virtual const ::google::protobuf::ServiceDescriptor& GetDescriptor()"
    ∷ "      const GRPC_OVERRIDE {" ∷ "    return GetServiceDescriptor();" ∷ "  }" ∷ "};" ∷ ""
    ∷ "}  // namespace RouteGuide" ∷ "" ∷ "}  // namespace routeguide" ∷ ""
    ∷ "#endif  // GRPC_CB_route_5fguide_2eproto__INCLUDED" ∷ []

route_guide_header : header_text route_guide_file ≡ text_of file_lines
unfolding header_text bytes_eq filename_identifier tokenize dots_to_colons dots_to_underscores
    strip_suffix strip_proto class_name
route_guide_header = refl
