-- ===== src/Generator/Stub.antt =====
-- `PrintSourceClientMethod` of cpp_cb_generator.cc: the functions of the client's stub.
use grpc_cb.Base.{List, [], ◌∷◌, if◌then◌else◌}
use grpc_cb.Helpers.Descriptors.{
  MethodDescriptor, no_streaming, client_only_streaming, server_only_streaming, bidi_streaming,
}
use grpc_cb.Generator.Printing.{Action, print}
use grpc_cb.Generator.Header.{set_method}

unfoldable pub print_source_client_method : MethodDescriptor → List Action
unfolding set_method
print_source_client_method method = set_method method (
    if no_streaming method
    then print (
        "::grpc_cb::Status Stub::Sync_$Method$(\n" ∷ "    const $Request$& request,\n"
        ∷ "    $Response$* response) {\n" ∷ "  return ::grpc_cb::StubHelper(*this).SyncRequest(\n"
        ∷ "      method_names[0], request, response);\n" ∷ "}\n" ∷ "\n" ∷ [])
      ∷ print (
          "void Stub::Async_$Method$(\n" ∷ "    const $Request$& request,\n"
          ∷ "    const $Method$_RespCb& cb,\n" ∷ "    const ::grpc_cb::ErrorCb& ecb) {\n"
          ∷ "  ::grpc_cb::StubHelper(*this).AsyncRequest(\n"
          ∷ "      method_names[0], request, cb, ecb);\n" ∷ "}\n" ∷ "\n" ∷ [])
      ∷ []
    else if client_only_streaming method
    then print (
        "Stub::$Method$_SyncWriter\n" ∷ "Stub::Sync_$Method$() {\n"
        ∷ "  return $Method$_SyncWriter(\n"
        ∷ "      GetChannelSptr(), method_names[$Idx$], GetCallTimeoutMs());\n" ∷ "}\n" ∷ "\n"
        ∷ "Stub::$Method$_AsyncWriter\n" ∷ "Stub::Async_$Method$() {\n"
        ∷ "  return $Method$_AsyncWriter(\n"
        ∷ "      GetChannelSptr(), method_names[$Idx$], GetCompletionQueue(),\n"
        ∷ "      GetCallTimeoutMs());\n" ∷ "}\n\n" ∷ [])
      ∷ []
    else if server_only_streaming method
    then print (
        "Stub::$Method$_SyncReader\n" ∷ "Stub::Sync_$Method$(const $Request$& request) {\n"
        ∷ "  return $Method$_SyncReader(\n"
        ∷ "      GetChannelSptr(), method_names[$Idx$], request, GetCallTimeoutMs());\n" ∷ "}\n"
        ∷ "\n" ∷ "void Stub::Async_$Method$(\n" ∷ "    const $Request$& request,\n"
        ∷ "    const $Method$_MsgCb& msg_cb,\n" ∷ "    const ::grpc_cb::StatusCb& status_cb) {\n"
        ∷ "  ::grpc_cb::ClientAsyncReader<\n" ∷ "          $Request$,\n"
        ∷ "          $Response$> reader(\n"
        ∷ "      GetChannelSptr(), method_names[$Idx$], request, GetCompletionQueue(),\n"
        ∷ "      GetCallTimeoutMs());\n" ∷ "  reader.ReadEach(msg_cb, status_cb);\n" ∷ "}\n\n" ∷ [])
      ∷ []
    else if bidi_streaming method
    then print (
        "Stub::$Method$_SyncReaderWriter\n" ∷ "Stub::Sync_$Method$() {\n"
        ∷ "  return $Method$_SyncReaderWriter(\n"
        ∷ "      GetChannelSptr(), method_names[$Idx$], GetCallTimeoutMs());\n" ∷ "}\n" ∷ "\n"
        ∷ "Stub::$Method$_AsyncReaderWriter\n" ∷ "Stub::Async_$Method$(\n"
        ∷ "    const ::grpc_cb::StatusCb& status_cb) {\n" ∷ "  return $Method$_AsyncReaderWriter(\n"
        ∷ "      GetChannelSptr(), method_names[$Idx$], GetCompletionQueue(),\n"
        ∷ "      GetCallTimeoutMs(), status_cb);\n" ∷ "}\n\n" ∷ [])
      ∷ []
    else [])
