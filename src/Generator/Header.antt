-- ===== src/Generator/Header.antt =====
-- The functions of cpp_cb_generator.cc that write the header file.
use grpc_cb.Base.{Bool, true, false, List, [], ◌∷◌, ◌++◌, reverse, Bytes, codes, if◌then◌else◌}
use grpc_cb.Helpers.Strip.{strip_proto}
use grpc_cb.Helpers.Tokenize.{tokenize}
use grpc_cb.Helpers.Identifier.{filename_identifier}
use grpc_cb.Helpers.ClassNames.{class_name}
use grpc_cb.Helpers.Descriptors.{
  MethodDescriptor, ServiceDescriptor, FileDescriptor, no_streaming, client_only_streaming,
  server_only_streaming, bidi_streaming,
}
use grpc_cb.Generator.Printing.{
  Action, set, print, print_plain, indent, outdent, for_each, Parameters,
}

abbrev pub is_empty {ℓ} : {A : Type ℓ} → List A → Bool
is_empty [] = true
is_empty (x ∷ xs) = false

unfoldable pub get_header_prologue : FileDescriptor → Parameters → List Action
get_header_prologue file params =
    set "filename" file.name
    ∷ set "filename_identifier" (filename_identifier file.name)
    ∷ set "filename_base" (strip_proto file.name)
    ∷ print ("// Generated by the gRPC protobuf plugin.\n" ∷ [])
    ∷ print ("// If you make any local change, they will be lost.\n" ∷ [])
    ∷ print ("// source: $filename$\n" ∷ [])
    ∷ print ("#ifndef GRPC_CB_$filename_identifier$__INCLUDED\n" ∷ [])
    ∷ print ("#define GRPC_CB_$filename_identifier$__INCLUDED\n" ∷ [])
    ∷ print ("\n" ∷ [])
    ∷ []

unfoldable pub open_part : Bytes → List Action
open_part part = set "part" part ∷ print ("namespace $part$ {\n" ∷ []) ∷ []

unfoldable pub get_header_includes : FileDescriptor → Parameters → List Action
unfolding open_part for_each
get_header_includes file params =
    set "filename" file.name
    ∷ set "filename_base" (strip_proto file.name)
    ∷ print (
        "#include <grpc_cb/grpc_cb.h>  // Include all for user.\n" ∷ "\n"
        ∷ "#include \"$filename_base$.pb.h\"\n" ∷ "\n" ∷ [])
    ∷ (if is_empty file.package_name
        then []
        else set "package" file.package_name
          ∷ print ("// package $package$\n" ∷ [])
          ∷ (for_each open_part (tokenize file.package_name (codes "."))
              ++ print_plain ("\n" ∷ []) ∷ []))

-- The three assignments with which the functions for a method begin.
unfoldable pub set_method : MethodDescriptor → List Action → List Action
set_method method rest =
    set "Method" method.name
    ∷ set "Request" (class_name method.input_type true)
    ∷ set "Response" (class_name method.output_type true)
    ∷ rest

unfoldable pub print_header_client_method_public : MethodDescriptor → List Action
unfolding set_method
print_header_client_method_public method = set_method method (
    if no_streaming method
    then print (
        "::grpc_cb::Status Sync_$Method$(\n" ∷ "    const $Request$& request,\n"
        ∷ "    $Response$* response = nullptr);\n" ∷ "\n"
        ∷ "using $Method$_RespCb = ::grpc_cb::MsgCbTmpl<$Response$>;\n" ∷ "void Async_$Method$(\n"
        ∷ "    const $Request$& request,\n" ∷ "    const $Method$_RespCb& cb = nullptr,\n"
        ∷ "    const ::grpc_cb::ErrorCb& ecb = nullptr);\n\n" ∷ [])
      ∷ []
    else if client_only_streaming method
    then print (
        "using $Method$_SyncWriter =\n" ∷ "    ::grpc_cb::ClientSyncWriter<\n"
        ∷ "        $Request$,\n" ∷ "        $Response$>;\n" ∷ "$Method$_SyncWriter\n"
        ∷ "Sync_$Method$();\n" ∷ "\n" ∷ "using $Method$_AsyncWriter =\n"
        ∷ "    ::grpc_cb::ClientAsyncWriter<\n" ∷ "        $Request$,\n" ∷ "        $Response$>;\n"
        ∷ "$Method$_AsyncWriter\n" ∷ "Async_$Method$();\n\n" ∷ [])
      ∷ []
    else if server_only_streaming method
    then print (
        "using $Method$_SyncReader =\n" ∷ "    ::grpc_cb::ClientSyncReader<\n"
        ∷ "        $Request$,\n" ∷ "        $Response$>;\n" ∷ "$Method$_SyncReader\n"
        ∷ "Sync_$Method$(const $Request$& request);\n" ∷ "\n"
        ∷ "using $Method$_MsgCb = ::grpc_cb::MsgCbTmpl<$Response$>;\n"
        ∷ "void Async_$Method$(const $Request$& request,\n"
        ∷ "    const $Method$_MsgCb& msg_cb = nullptr,\n"
        ∷ "    const ::grpc_cb::StatusCb& status_cb = nullptr);\n\n" ∷ [])
      ∷ []
    else if bidi_streaming method
    then print (
        "using $Method$_SyncReaderWriter =\n" ∷ "    ::grpc_cb::ClientSyncReaderWriter<\n"
        ∷ "        $Request$,\n" ∷ "        $Response$>;\n" ∷ "$Method$_SyncReaderWriter\n"
        ∷ "Sync_$Method$();\n" ∷ "\n" ∷ "using $Method$_AsyncReaderWriter =\n"
        ∷ "    ::grpc_cb::ClientAsyncReaderWriter<\n" ∷ "        $Request$,\n"
        ∷ "        $Response$>;\n" ∷ "$Method$_AsyncReaderWriter\n"
        ∷ "Async_$Method$(const ::grpc_cb::StatusCb& status_cb);\n\n" ∷ [])
      ∷ []
    else [])

unfoldable pub print_header_service_method : MethodDescriptor → List Action
unfolding set_method
print_header_service_method method = set_method method (
    if no_streaming method
    then print (
        " public:\n" ∷ "  using $Method$_Replier = ::grpc_cb::ServerReplier<\n"
        ∷ "      $Response$>;\n" ∷ " protected:\n" ∷ "  virtual void $Method$(\n"
        ∷ "      const $Request$& request,\n" ∷ "      $Method$_Replier replier);\n" ∷ " private:\n"
        ∷ "  void $Method$(\n" ∷ "      grpc_byte_buffer& request_buffer,\n"
        ∷ "      const $Method$_Replier& replier);\n" ∷ "\n" ∷ [])
      ∷ []
    else if client_only_streaming method
    then print (
        " public:\n" ∷ "  using $Method$_Replier = ::grpc_cb::ServerReplier<\n"
        ∷ "      $Response$>;\n"
        ∷ "  using $Method$_Reader = ::grpc_cb::ServerReaderForClientSideStreaming<\n"
        ∷ "      $Request$, $Response$>;\n"
        ∷ "  using $Method$_ReaderSptr = std::shared_ptr<$Method$_Reader>;\n" ∷ " protected:\n"
        ∷ "  virtual $Method$_ReaderSptr $Method$(\n" ∷ "      $Method$_Replier replier);\n"
        ∷ " private:\n" ∷ "  void $Method$(const ::grpc_cb::CallSptr& call_sptr);\n" ∷ "\n" ∷ [])
      ∷ []
    else if server_only_streaming method
    then print (
        " public:\n" ∷ "  using $Method$_Writer = ::grpc_cb::ServerWriter<\n"
        ∷ "      $Response$>;\n" ∷ " protected:\n" ∷ "  virtual void $Method$(\n"
        ∷ "      const $Request$& request,\n" ∷ "      $Method$_Writer writer);\n" ∷ " private:\n"
        ∷ "  void $Method$(grpc_byte_buffer& request_buffer,\n"
        ∷ "      const $Method$_Writer& writer);\n" ∷ "\n" ∷ [])
      ∷ []
    else if bidi_streaming method
    then print (
        " public:\n" ∷ "  using $Method$_Writer = ::grpc_cb::ServerWriter<\n"
        ∷ "      $Response$>;\n"
        ∷ "  using $Method$_Reader = ::grpc_cb::ServerReaderForBidiStreaming<\n"
        ∷ "      $Request$, $Response$>;\n"
        ∷ "  using $Method$_ReaderSptr = std::shared_ptr<$Method$_Reader>;\n" ∷ " protected:\n"
        ∷ "  virtual $Method$_ReaderSptr $Method$(\n" ∷ "      $Method$_Writer writer);\n"
        ∷ " private:\n" ∷ "  void $Method$(const ::grpc_cb::CallSptr& call_sptr);\n" ∷ "\n" ∷ [])
      ∷ []
    else [])

-- The actions between the two loops of `PrintHeaderService`, and those behind them.
unfoldable pub header_service_class : List Action
header_service_class =
    outdent
    ∷ print_plain ("};  // class Stub\n" ∷ [])
    ∷ print_plain ("\n" ∷ [])
    ∷ print_plain ("class Service : public ::grpc_cb::Service {\n" ∷ " public:\n" ∷ [])
    ∷ indent
    ∷ print_plain ("Service();\n" ∷ [])
    ∷ print_plain ("virtual ~Service();\n" ∷ [])
    ∷ print_plain ("\n" ∷ [])
    ∷ print_plain ("virtual const std::string& GetMethodName(size_t i) const GRPC_OVERRIDE;\n" ∷ [])
    ∷ print_plain (
        "virtual void CallMethod(\n"
        ∷ "    size_t method_index, grpc_byte_buffer* request_buffer,\n"
        ∷ "    const ::grpc_cb::CallSptr& call_sptr) GRPC_OVERRIDE;\n\n" ∷ [])
    ∷ outdent
    ∷ []

unfoldable pub header_service_end : List Action
header_service_end =
    print_plain (" private:\n" ∷ [])
    ∷ indent
    ∷ print_plain (
        "virtual const ::google::protobuf::ServiceDescriptor& GetDescriptor()\n"
        ∷ "    const GRPC_OVERRIDE {\n" ∷ "  return GetServiceDescriptor();\n" ∷ "}\n" ∷ [])
    ∷ outdent
    ∷ print_plain ("};\n" ∷ [])
    ∷ print ("\n}  // namespace $Service$\n" ∷ [])
    ∷ []

unfoldable pub print_header_service : ServiceDescriptor → List Action
unfolding print_header_client_method_public print_header_service_method header_service_class
    header_service_end for_each
print_header_service service =
    set "Service" service.name
    ∷ print ("namespace $Service$ {  // service $Service$\n\n" ∷ [])
    ∷ print_plain ("const ::google::protobuf::ServiceDescriptor& GetServiceDescriptor();\n\n" ∷ [])
    ∷ print_plain ("class Stub : public ::grpc_cb::ServiceStub {\n" ∷ " public:\n" ∷ [])
    ∷ indent
    ∷ print_plain ("explicit Stub(const ::grpc_cb::ChannelSptr& channel,\n" ∷ [])
    ∷ print_plain ("    const ::grpc_cb::CompletionQueueForNextSptr& cq4n_sptr = nullptr);\n" ∷ [])
    ∷ print_plain ("\n" ∷ [])
    ∷ (for_each print_header_client_method_public service.methods
        ++ (header_service_class
            ++ (for_each print_header_service_method service.methods ++ header_service_end)))

unfoldable pub header_service : ServiceDescriptor → List Action
unfolding print_header_service
header_service service = print_header_service service ++ print_plain ("\n" ∷ []) ∷ []

unfoldable pub get_header_services : FileDescriptor → Parameters → List Action
unfolding header_service
get_header_services file params =
    (if is_empty params.services_namespace
      then []
      else set "services_namespace" params.services_namespace
        ∷ print ("\nnamespace $services_namespace$ {\n\n" ∷ [])
        ∷ [])
    ++ (for_each header_service file.services
        ++ (if is_empty params.services_namespace
            then []
            else print ("}  // namespace $services_namespace$\n\n" ∷ []) ∷ []))

unfoldable pub close_part : Bytes → List Action
close_part part = set "part" part ∷ print ("}  // namespace $part$\n" ∷ []) ∷ []

unfoldable pub get_header_epilogue : FileDescriptor → Parameters → List Action
unfolding close_part for_each
get_header_epilogue file params =
    set "filename" file.name
    ∷ set "filename_identifier" (filename_identifier file.name)
    ∷ ((if is_empty file.package_name
          then []
          else for_each close_part (reverse (tokenize file.package_name (codes ".")))
            ++ print ("\n" ∷ []) ∷ [])
        ++ print ("#endif  // GRPC_CB_$filename_identifier$__INCLUDED\n" ∷ []) ∷ [])
