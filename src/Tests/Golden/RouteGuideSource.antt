-- ===== src/Tests/Golden/RouteGuideSource.antt =====
-- What the generator writes for examples/protos/route_guide.proto is, byte for byte,
-- examples/cpp_cb/route_guide/route_guide.grpc_cb.pb.cc.
use grpc_cb.Base.{◌≡◌, refl, List, [], ◌∷◌, String, bytes_eq}
use grpc_cb.Helpers.Identifier.{filename_identifier}
use grpc_cb.Helpers.Tokenize.{tokenize}
use grpc_cb.Helpers.Replace.{dots_to_colons, dots_to_underscores}
use grpc_cb.Helpers.Strip.{strip_suffix, strip_proto}
use grpc_cb.Helpers.ClassNames.{class_name}
use grpc_cb.Generator.Source.{assign_descriptors_name}
use grpc_cb.Generator.Printing.{as_string}
use grpc_cb.Generator.Sample.{route_guide_file, source_text}
use grpc_cb.Tests.Golden.Lines.{text_of}

abbrev file_lines : List String
file_lines =
    "// Generated by the gRPC protobuf plugin."
    ∷ "// If you make any local change, they will be lost." ∷ "// source: route_guide.proto" ∷ ""
    ∷ "#include \"route_guide.grpc_cb.pb.h\"" ∷ "" ∷ "#include <google/protobuf/descriptor.h>"
    ∷ "#include <google/protobuf/stubs/once.h>" ∷ "" ∷ "// package routeguide"
    ∷ "namespace routeguide {" ∷ "" ∷ "namespace {" ∷ ""
    ∷ "const ::google::protobuf::ServiceDescriptor*" ∷ "service_descriptor_RouteGuide = nullptr;"
    ∷ "" ∷ "void AssignDesc_route_5fguide_2eproto() {"
    ∷ "  // Get the file's descriptor from the pool."
    ∷ "  const ::google::protobuf::FileDescriptor* file ="
    ∷ "    ::google::protobuf::DescriptorPool::generated_pool()->FindFileByName("
    ∷ "      \"route_guide.proto\");" ∷ "  GOOGLE_CHECK(file != NULL);"
    ∷ "  service_descriptor_RouteGuide = file->service(0);"
    ∷ "}  // AssignDesc_route_5fguide_2eproto()" ∷ ""
    ∷ "GOOGLE_PROTOBUF_DECLARE_ONCE(grpc_cb_AssignDescriptors_once_);"
    ∷ "inline void AssignDescriptorsOnce() {" ∷ "  ::google::protobuf::GoogleOnceInit("
    ∷ "    &grpc_cb_AssignDescriptors_once_," ∷ "    &AssignDesc_route_5fguide_2eproto);" ∷ "}" ∷ ""
    ∷ "}  // namespace" ∷ "" ∷ "namespace RouteGuide {  // service RouteGuide" ∷ ""
    ∷ "static const std::string method_names[] = {" ∷ "  \"/routeguide.RouteGuide/GetFeature\","
    ∷ "  \"/routeguide.RouteGuide/ListFeatures\"," ∷ "  \"/routeguide.RouteGuide/RecordRoute\","
    ∷ "  \"/routeguide.RouteGuide/RouteChat\"," ∷ "};" ∷ ""
    ∷ "const ::google::protobuf::ServiceDescriptor& GetServiceDescriptor() {"
    ∷ "  AssignDescriptorsOnce();" ∷ "  assert(service_descriptor_RouteGuide);"
    ∷ "  return *service_descriptor_RouteGuide;" ∷ "}" ∷ ""
    ∷ "Stub::Stub(const ::grpc_cb::ChannelSptr& channel,"
    ∷ "    const ::grpc_cb::CompletionQueueForNextSptr& cq4n_sptr)"
    ∷ "    : ::grpc_cb::ServiceStub(channel, cq4n_sptr) {}" ∷ ""
    ∷ "::grpc_cb::Status Stub::Sync_GetFeature(" ∷ "    const ::routeguide::Point& request,"
    ∷ "    ::routeguide::Feature* response) {"
    ∷ "  return ::grpc_cb::StubHelper(*this).SyncRequest("
    ∷ "      method_names[0], request, response);" ∷ "}" ∷ "" ∷ "void Stub::Async_GetFeature("
    ∷ "    const ::routeguide::Point& request," ∷ "    const GetFeature_RespCb& cb,"
    ∷ "    const ::grpc_cb::ErrorCb& ecb) {" ∷ "  ::grpc_cb::StubHelper(*this).AsyncRequest("
    ∷ "      method_names[0], request, cb, ecb);" ∷ "}" ∷ "" ∷ "Stub::ListFeatures_SyncReader"
    ∷ "Stub::Sync_ListFeatures(const ::routeguide::Rectangle& request) {"
    ∷ "  return ListFeatures_SyncReader("
    ∷ "      GetChannelSptr(), method_names[1], request, GetCallTimeoutMs());" ∷ "}" ∷ ""
    ∷ "void Stub::Async_ListFeatures(" ∷ "    const ::routeguide::Rectangle& request,"
    ∷ "    const ListFeatures_MsgCb& msg_cb," ∷ "    const ::grpc_cb::StatusCb& status_cb) {"
    ∷ "  ::grpc_cb::ClientAsyncReader<" ∷ "          ::routeguide::Rectangle,"
    ∷ "          ::routeguide::Feature> reader("
    ∷ "      GetChannelSptr(), method_names[1], request, GetCompletionQueue(),"
    ∷ "      GetCallTimeoutMs());" ∷ "  reader.ReadEach(msg_cb, status_cb);" ∷ "}" ∷ ""
    ∷ "Stub::RecordRoute_SyncWriter" ∷ "Stub::Sync_RecordRoute() {"
    ∷ "  return RecordRoute_SyncWriter("
    ∷ "      GetChannelSptr(), method_names[2], GetCallTimeoutMs());" ∷ "}" ∷ ""
    ∷ "Stub::RecordRoute_AsyncWriter" ∷ "Stub::Async_RecordRoute() {"
    ∷ "  return RecordRoute_AsyncWriter("
    ∷ "      GetChannelSptr(), method_names[2], GetCompletionQueue(),"
    ∷ "      GetCallTimeoutMs());" ∷ "}" ∷ "" ∷ "Stub::RouteChat_SyncReaderWriter"
    ∷ "Stub::Sync_RouteChat() {" ∷ "  return RouteChat_SyncReaderWriter("
    ∷ "      GetChannelSptr(), method_names[3], GetCallTimeoutMs());" ∷ "}" ∷ ""
    ∷ "Stub::RouteChat_AsyncReaderWriter" ∷ "Stub::Async_RouteChat("
    ∷ "    const ::grpc_cb::StatusCb& status_cb) {" ∷ "  return RouteChat_AsyncReaderWriter("
    ∷ "      GetChannelSptr(), method_names[3], GetCompletionQueue(),"
    ∷ "      GetCallTimeoutMs(), status_cb);" ∷ "}" ∷ "" ∷ "Service::Service() {}" ∷ ""
    ∷ "Service::~Service() {}" ∷ ""
    ∷ "const std::string& Service::GetMethodName(size_t method_index) const {"
    ∷ "  assert(method_index < GetMethodCount());" ∷ "  return method_names[method_index];" ∷ "}"
    ∷ "" ∷ "void Service::CallMethod("
    ∷ "    size_t method_index, grpc_byte_buffer* request_buffer,"
    ∷ "    const ::grpc_cb::CallSptr& call_sptr) {" ∷ "  assert(method_index < GetMethodCount());"
    ∷ "  switch (method_index) {" ∷ "    case 0:" ∷ "      if (!request_buffer) return;"
    ∷ "      GetFeature(*request_buffer," ∷ "          GetFeature_Replier(call_sptr));"
    ∷ "      return;" ∷ "    case 1:" ∷ "      if (!request_buffer) return;"
    ∷ "      ListFeatures(*request_buffer," ∷ "          ListFeatures_Writer(call_sptr));"
    ∷ "      return;" ∷ "    case 2:" ∷ "      assert(!request_buffer);"
    ∷ "      RecordRoute(call_sptr);" ∷ "      return;" ∷ "    case 3:"
    ∷ "      assert(!request_buffer);" ∷ "      RouteChat(call_sptr);" ∷ "      return;"
    ∷ "  }  // switch" ∷ "  assert(false);" ∷ "  (void)request_buffer;" ∷ "  (void)call_sptr;" ∷ "}"
    ∷ "" ∷ "void Service::GetFeature(" ∷ "    grpc_byte_buffer& request_buffer,"
    ∷ "    const GetFeature_Replier& replier) {" ∷ "  using Request = ::routeguide::Point;"
    ∷ "  Request request;" ∷ "  ::grpc_cb::Status status =" ∷ "      ::grpc_cb::Proto::Deserialize("
    ∷ "          &request_buffer, &request, 0 /* TODO: max_message_size*/);"
    ∷ "  if (status.ok()) {" ∷ "    GetFeature(request, replier);" ∷ "    return;" ∷ "  }"
    ∷ "  GetFeature_Replier(" ∷ "      replier).ReplyError(status);" ∷ "}"
    ∷ "void Service::GetFeature(" ∷ "    const ::routeguide::Point& request,"
    ∷ "    GetFeature_Replier replier) {" ∷ "  (void)request;"
    ∷ "  replier.ReplyError(::grpc_cb::Status::UNIMPLEMENTED);" ∷ "}" ∷ ""
    ∷ "void Service::ListFeatures(grpc_byte_buffer& request_buffer,"
    ∷ "    const ListFeatures_Writer& writer) {" ∷ "  using Request = ::routeguide::Rectangle;"
    ∷ "  Request request;" ∷ "  ::grpc_cb::Status status =" ∷ "      ::grpc_cb::Proto::Deserialize("
    ∷ "          &request_buffer, &request, 0 /* TODO: max_message_size*/);"
    ∷ "  if (status.ok()) {" ∷ "    ListFeatures(request, writer);" ∷ "    return;" ∷ "  }"
    ∷ "  writer.AsyncClose(status);" ∷ "}" ∷ "" ∷ "void Service::ListFeatures("
    ∷ "    const ::routeguide::Rectangle& request," ∷ "    ListFeatures_Writer writer) {"
    ∷ "  (void)request;" ∷ "  writer.AsyncClose(::grpc_cb::Status::UNIMPLEMENTED);" ∷ "}" ∷ ""
    ∷ "void Service::RecordRoute(const ::grpc_cb::CallSptr& call_sptr) {" ∷ "  assert(call_sptr);"
    ∷ "  RecordRoute_Replier replier(call_sptr);"
    ∷ "  RecordRoute_ReaderSptr reader_sptr = RecordRoute(replier);" ∷ "  if (reader_sptr)"
    ∷ "    reader_sptr->Start(call_sptr, replier);" ∷ "}" ∷ "" ∷ "Service::RecordRoute_ReaderSptr"
    ∷ "Service::RecordRoute(RecordRoute_Replier replier) {"
    ∷ "  replier.ReplyError(::grpc_cb::Status::UNIMPLEMENTED);" ∷ "  return nullptr;" ∷ "}" ∷ ""
    ∷ "void Service::RouteChat(const ::grpc_cb::CallSptr& call_sptr) {" ∷ "  assert(call_sptr);"
    ∷ "  RouteChat_Writer writer(call_sptr);"
    ∷ "  RouteChat_ReaderSptr reader_sptr = RouteChat(writer);" ∷ "  if (reader_sptr)"
    ∷ "    reader_sptr->Start(call_sptr, writer);" ∷ "}" ∷ "" ∷ "Service::RouteChat_ReaderSptr"
    ∷ "Service::RouteChat(RouteChat_Writer writer) {"
    ∷ "  writer.AsyncClose(::grpc_cb::Status::UNIMPLEMENTED);" ∷ "  return nullptr;" ∷ "}" ∷ ""
    ∷ "}  // namespace RouteGuide" ∷ "" ∷ "}  // namespace routeguide" ∷ "" ∷ []

route_guide_source : source_text route_guide_file ≡ text_of file_lines
unfolding source_text bytes_eq filename_identifier tokenize dots_to_colons dots_to_underscores
    strip_suffix strip_proto class_name assign_descriptors_name as_string
route_guide_source = refl
