-- ===== src/Tests/Golden/GreeterHeader.antt =====
-- What the generator writes for examples/protos/helloworld.proto is, byte for byte,
-- examples/cpp_cb/helloworld/helloworld.grpc_cb.pb.h.
use grpc_cb.Base.{◌≡◌, refl, List, [], ◌∷◌, String, bytes_eq}
use grpc_cb.Helpers.Identifier.{filename_identifier}
use grpc_cb.Helpers.Tokenize.{tokenize}
use grpc_cb.Helpers.Replace.{dots_to_colons, dots_to_underscores}
use grpc_cb.Helpers.Strip.{strip_suffix, strip_proto}
use grpc_cb.Helpers.ClassNames.{class_name}
use grpc_cb.Generator.Sample.{hello_file, header_text}
use grpc_cb.Tests.Golden.Lines.{text_of}

abbrev file_lines : List String
file_lines =
    "// Generated by the gRPC protobuf plugin."
    ∷ "// If you make any local change, they will be lost." ∷ "// source: helloworld.proto"
    ∷ "#ifndef GRPC_CB_helloworld_2eproto__INCLUDED"
    ∷ "#define GRPC_CB_helloworld_2eproto__INCLUDED" ∷ ""
    ∷ "#include <grpc_cb/grpc_cb.h>  // Include all for user." ∷ "" ∷ "#include \"helloworld.pb.h\""
    ∷ "" ∷ "// package helloworld" ∷ "namespace helloworld {" ∷ ""
    ∷ "namespace Greeter {  // service Greeter" ∷ ""
    ∷ "const ::google::protobuf::ServiceDescriptor& GetServiceDescriptor();" ∷ ""
    ∷ "class Stub : public ::grpc_cb::ServiceStub {" ∷ " public:"
    ∷ "  explicit Stub(const ::grpc_cb::ChannelSptr& channel,"
    ∷ "      const ::grpc_cb::CompletionQueueForNextSptr& cq4n_sptr = nullptr);" ∷ ""
    ∷ "  ::grpc_cb::Status Sync_SayHello(" ∷ "      const ::helloworld::HelloRequest& request,"
    ∷ "      ::helloworld::HelloReply* response = nullptr);" ∷ ""
    ∷ "  using SayHello_RespCb = ::grpc_cb::MsgCbTmpl<::helloworld::HelloReply>;"
    ∷ "  void Async_SayHello(" ∷ "      const ::helloworld::HelloRequest& request,"
    ∷ "      const SayHello_RespCb& cb = nullptr,"
    ∷ "      const ::grpc_cb::ErrorCb& ecb = nullptr);" ∷ "" ∷ "};  // class Stub" ∷ ""
    ∷ "class Service : public ::grpc_cb::Service {" ∷ " public:" ∷ "  Service();"
    ∷ "  virtual ~Service();" ∷ ""
    ∷ "  virtual const std::string& GetMethodName(size_t i) const GRPC_OVERRIDE;"
    ∷ "  virtual void CallMethod(" ∷ "      size_t method_index, grpc_byte_buffer* request_buffer,"
    ∷ "      const ::grpc_cb::CallSptr& call_sptr) GRPC_OVERRIDE;" ∷ "" ∷ " public:"
    ∷ "  using SayHello_Replier = ::grpc_cb::ServerReplier<" ∷ "      ::helloworld::HelloReply>;"
    ∷ " protected:" ∷ "  virtual void SayHello("
    ∷ "      const ::helloworld::HelloRequest& request," ∷ "      SayHello_Replier replier);"
    ∷ " private:" ∷ "  void SayHello(" ∷ "      grpc_byte_buffer& request_buffer,"
    ∷ "      const SayHello_Replier& replier);" ∷ "" ∷ " private:"
    ∷ "  virtual const ::google::protobuf::ServiceDescriptor& GetDescriptor()"
    ∷ "      const GRPC_OVERRIDE {" ∷ "    return GetServiceDescriptor();" ∷ "  }" ∷ "};" ∷ ""
    ∷ "}  // namespace Greeter" ∷ "" ∷ "}  // namespace helloworld" ∷ ""
    ∷ "#endif  // GRPC_CB_helloworld_2eproto__INCLUDED" ∷ []

helloworld_header : header_text hello_file ≡ text_of file_lines
unfolding header_text bytes_eq filename_identifier tokenize dots_to_colons dots_to_underscores
    strip_suffix strip_proto class_name
helloworld_header = refl
