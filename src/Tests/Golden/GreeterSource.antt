-- ===== src/Tests/Golden/GreeterSource.antt =====
-- What the generator writes for examples/protos/helloworld.proto is, byte for byte,
-- examples/cpp_cb/helloworld/helloworld.grpc_cb.pb.cc.
use grpc_cb.Base.{◌≡◌, refl, List, [], ◌∷◌, String, bytes_eq}
use grpc_cb.Helpers.Identifier.{filename_identifier}
use grpc_cb.Helpers.Tokenize.{tokenize}
use grpc_cb.Helpers.Replace.{dots_to_colons, dots_to_underscores}
use grpc_cb.Helpers.Strip.{strip_suffix, strip_proto}
use grpc_cb.Helpers.ClassNames.{class_name}
use grpc_cb.Generator.Source.{assign_descriptors_name}
use grpc_cb.Generator.Printing.{as_string}
use grpc_cb.Generator.Sample.{hello_file, source_text}
use grpc_cb.Tests.Golden.Lines.{text_of}

abbrev file_lines : List String
file_lines =
    "// Generated by the gRPC protobuf plugin."
    ∷ "// If you make any local change, they will be lost." ∷ "// source: helloworld.proto" ∷ ""
    ∷ "#include \"helloworld.grpc_cb.pb.h\"" ∷ "" ∷ "#include <google/protobuf/descriptor.h>"
    ∷ "#include <google/protobuf/stubs/once.h>" ∷ "" ∷ "// package helloworld"
    ∷ "namespace helloworld {" ∷ "" ∷ "namespace {" ∷ ""
    ∷ "const ::google::protobuf::ServiceDescriptor*" ∷ "service_descriptor_Greeter = nullptr;" ∷ ""
    ∷ "void AssignDesc_helloworld_2eproto() {" ∷ "  // Get the file's descriptor from the pool."
    ∷ "  const ::google::protobuf::FileDescriptor* file ="
    ∷ "    ::google::protobuf::DescriptorPool::generated_pool()->FindFileByName("
    ∷ "      \"helloworld.proto\");" ∷ "  GOOGLE_CHECK(file != NULL);"
    ∷ "  service_descriptor_Greeter = file->service(0);" ∷ "}  // AssignDesc_helloworld_2eproto()"
    ∷ "" ∷ "GOOGLE_PROTOBUF_DECLARE_ONCE(grpc_cb_AssignDescriptors_once_);"
    ∷ "inline void AssignDescriptorsOnce() {" ∷ "  ::google::protobuf::GoogleOnceInit("
    ∷ "    &grpc_cb_AssignDescriptors_once_," ∷ "    &AssignDesc_helloworld_2eproto);" ∷ "}" ∷ ""
    ∷ "}  // namespace" ∷ "" ∷ "namespace Greeter {  // service Greeter" ∷ ""
    ∷ "static const std::string method_names[] = {" ∷ "  \"/helloworld.Greeter/SayHello\"," ∷ "};"
    ∷ "" ∷ "const ::google::protobuf::ServiceDescriptor& GetServiceDescriptor() {"
    ∷ "  AssignDescriptorsOnce();" ∷ "  assert(service_descriptor_Greeter);"
    ∷ "  return *service_descriptor_Greeter;" ∷ "}" ∷ ""
    ∷ "Stub::Stub(const ::grpc_cb::ChannelSptr& channel,"
    ∷ "    const ::grpc_cb::CompletionQueueForNextSptr& cq4n_sptr)"
    ∷ "    : ::grpc_cb::ServiceStub(channel, cq4n_sptr) {}" ∷ ""
    ∷ "::grpc_cb::Status Stub::Sync_SayHello(" ∷ "    const ::helloworld::HelloRequest& request,"
    ∷ "    ::helloworld::HelloReply* response) {"
    ∷ "  return ::grpc_cb::StubHelper(*this).SyncRequest("
    ∷ "      method_names[0], request, response);" ∷ "}" ∷ "" ∷ "void Stub::Async_SayHello("
    ∷ "    const ::helloworld::HelloRequest& request," ∷ "    const SayHello_RespCb& cb,"
    ∷ "    const ::grpc_cb::ErrorCb& ecb) {" ∷ "  ::grpc_cb::StubHelper(*this).AsyncRequest("
    ∷ "      method_names[0], request, cb, ecb);" ∷ "}" ∷ "" ∷ "Service::Service() {}" ∷ ""
    ∷ "Service::~Service() {}" ∷ ""
    ∷ "const std::string& Service::GetMethodName(size_t method_index) const {"
    ∷ "  assert(method_index < GetMethodCount());" ∷ "  return method_names[method_index];" ∷ "}"
    ∷ "" ∷ "void Service::CallMethod("
    ∷ "    size_t method_index, grpc_byte_buffer* request_buffer,"
    ∷ "    const ::grpc_cb::CallSptr& call_sptr) {" ∷ "  assert(method_index < GetMethodCount());"
    ∷ "  switch (method_index) {" ∷ "    case 0:" ∷ "      if (!request_buffer) return;"
    ∷ "      SayHello(*request_buffer," ∷ "          SayHello_Replier(call_sptr));"
    ∷ "      return;" ∷ "  }  // switch" ∷ "  assert(false);" ∷ "  (void)request_buffer;"
    ∷ "  (void)call_sptr;" ∷ "}" ∷ "" ∷ "void Service::SayHello("
    ∷ "    grpc_byte_buffer& request_buffer," ∷ "    const SayHello_Replier& replier) {"
    ∷ "  using Request = ::helloworld::HelloRequest;" ∷ "  Request request;"
    ∷ "  ::grpc_cb::Status status =" ∷ "      ::grpc_cb::Proto::Deserialize("
    ∷ "          &request_buffer, &request, 0 /* TODO: max_message_size*/);"
    ∷ "  if (status.ok()) {" ∷ "    SayHello(request, replier);" ∷ "    return;" ∷ "  }"
    ∷ "  SayHello_Replier(" ∷ "      replier).ReplyError(status);" ∷ "}" ∷ "void Service::SayHello("
    ∷ "    const ::helloworld::HelloRequest& request," ∷ "    SayHello_Replier replier) {"
    ∷ "  (void)request;" ∷ "  replier.ReplyError(::grpc_cb::Status::UNIMPLEMENTED);" ∷ "}" ∷ ""
    ∷ "}  // namespace Greeter" ∷ "" ∷ "}  // namespace helloworld" ∷ "" ∷ []

helloworld_source : source_text hello_file ≡ text_of file_lines
unfolding source_text bytes_eq filename_identifier tokenize dots_to_colons dots_to_underscores
    strip_suffix strip_proto class_name assign_descriptors_name as_string
helloworld_source = refl
