-- ===== src/Generator/Server.antt =====
-- `PrintSourceServerMethod`, `PrintSourceServerAsyncMethod` and `PrintCallMethod` of
-- cpp_cb_generator.cc: the functions of the server's service.
use grpc_cb.Base.{ℕ, true, List, [], ◌∷◌, ◌++◌, if◌then◌else◌}
use grpc_cb.Helpers.ClassNames.{class_name}
use grpc_cb.Helpers.Descriptors.{
  MethodDescriptor, ServiceDescriptor, no_streaming, client_only_streaming, server_only_streaming,
  bidi_streaming,
}
use grpc_cb.Generator.Printing.{Action, set, print, print_plain, for_index, as_string}
use grpc_cb.Generator.Header.{set_method}

unfoldable pub print_source_server_method : MethodDescriptor → List Action
unfolding set_method
print_source_server_method method = set_method method (
    if no_streaming method
    then print (
        "void Service::$Method$(\n" ∷ "    grpc_byte_buffer& request_buffer,\n"
        ∷ "    const $Method$_Replier& replier) {\n" ∷ "  using Request = $Request$;\n"
        ∷ "  Request request;\n" ∷ "  ::grpc_cb::Status status =\n"
        ∷ "      ::grpc_cb::Proto::Deserialize(\n"
        ∷ "          &request_buffer, &request, 0 /* TODO: max_message_size*/);\n"
        ∷ "  if (status.ok()) {\n" ∷ "    $Method$(request, replier);\n" ∷ "    return;\n" ∷ "  }\n"
        ∷ "  $Method$_Replier(\n" ∷ "      replier).ReplyError(status);\n" ∷ "}\n"
        ∷ "void Service::$Method$(\n" ∷ "    const $Request$& request,\n"
        ∷ "    $Method$_Replier replier) {\n" ∷ "  (void)request;\n"
        ∷ "  replier.ReplyError(::grpc_cb::Status::UNIMPLEMENTED);\n" ∷ "}\n\n" ∷ [])
      ∷ []
    else if client_only_streaming method
    then print (
        "void Service::$Method$(const ::grpc_cb::CallSptr& call_sptr) {\n"
        ∷ "  assert(call_sptr);\n" ∷ "  $Method$_Replier replier(call_sptr);\n"
        ∷ "  $Method$_ReaderSptr reader_sptr = $Method$(replier);\n" ∷ "  if (reader_sptr)\n"
        ∷ "    reader_sptr->Start(call_sptr, replier);\n" ∷ "}\n" ∷ "\n"
        ∷ "Service::$Method$_ReaderSptr\n" ∷ "Service::$Method$($Method$_Replier replier) {\n"
        ∷ "  replier.ReplyError(::grpc_cb::Status::UNIMPLEMENTED);\n" ∷ "  return nullptr;\n"
        ∷ "}\n\n" ∷ [])
      ∷ []
    else if server_only_streaming method
    then print (
        "void Service::$Method$(grpc_byte_buffer& request_buffer,\n"
        ∷ "    const ListFeatures_Writer& writer) {\n" ∷ "  using Request = $Request$;\n"
        ∷ "  Request request;\n" ∷ "  ::grpc_cb::Status status =\n"
        ∷ "      ::grpc_cb::Proto::Deserialize(\n"
        ∷ "          &request_buffer, &request, 0 /* TODO: max_message_size*/);\n"
        ∷ "  if (status.ok()) {\n" ∷ "    $Method$(request, writer);\n" ∷ "    return;\n" ∷ "  }\n"
        ∷ "  writer.AsyncClose(status);\n" ∷ "}\n" ∷ "\n" ∷ "void Service::$Method$(\n"
        ∷ "    const $Request$& request,\n" ∷ "    ListFeatures_Writer writer) {\n"
        ∷ "  (void)request;\n" ∷ "  writer.AsyncClose(::grpc_cb::Status::UNIMPLEMENTED);\n"
        ∷ "}\n\n" ∷ [])
      ∷ []
    else if bidi_streaming method
    then print (
        "void Service::$Method$(const ::grpc_cb::CallSptr& call_sptr) {\n"
        ∷ "  assert(call_sptr);\n" ∷ "  $Method$_Writer writer(call_sptr);\n"
        ∷ "  $Method$_ReaderSptr reader_sptr = $Method$(writer);\n" ∷ "  if (reader_sptr)\n"
        ∷ "    reader_sptr->Start(call_sptr, writer);\n" ∷ "}\n" ∷ "\n"
        ∷ "Service::$Method$_ReaderSptr\n" ∷ "Service::$Method$($Method$_Writer writer) {\n"
        ∷ "  writer.AsyncClose(::grpc_cb::Status::UNIMPLEMENTED);\n" ∷ "  return nullptr;\n"
        ∷ "}\n\n" ∷ [])
      ∷ []
    else [])

-- No function of the file calls this one.
unfoldable pub print_source_server_async_method : MethodDescriptor → List Action
unfolding set_method
print_source_server_async_method method = set_method method (
    if no_streaming method
    then print (
        "void AsyncService::Request$Method$(" ∷ "::grpc_cb::ServerContext* context, "
        ∷ "$Request$* request, " ∷ "::grpc_cb::ServerAsyncResponseWriter< $Response$>* response, "
        ∷ "::grpc_cb::CompletionQueue* new_call_cq, "
        ∷ "::grpc_cb::ServerCompletionQueue* notification_cq, void *tag) {\n" ∷ [])
      ∷ print (
          "  AsynchronousService::RequestAsyncUnary($Idx$, context, "
          ∷ "request, response, new_call_cq, notification_cq, tag);\n" ∷ [])
      ∷ print_plain ("}\n\n" ∷ [])
      ∷ []
    else if client_only_streaming method
    then print (
        "void AsyncService::Request$Method$(" ∷ "::grpc_cb::ServerContext* context, "
        ∷ "::grpc_cb::ServerAsyncReader< $Response$, $Request$>* reader, "
        ∷ "::grpc_cb::CompletionQueue* new_call_cq, "
        ∷ "::grpc_cb::ServerCompletionQueue* notification_cq, void *tag) {\n" ∷ [])
      ∷ print (
          "  AsynchronousService::RequestClientStreaming($Idx$, "
          ∷ "context, reader, new_call_cq, notification_cq, tag);\n" ∷ [])
      ∷ print_plain ("}\n\n" ∷ [])
      ∷ []
    else if server_only_streaming method
    then print (
        "void AsyncService::Request$Method$(" ∷ "::grpc_cb::ServerContext* context, "
        ∷ "$Request$* request, " ∷ "::grpc_cb::ServerAsyncWriter< $Response$>* writer, "
        ∷ "::grpc_cb::CompletionQueue* new_call_cq, "
        ∷ "::grpc_cb::ServerCompletionQueue* notification_cq, void *tag) {\n" ∷ [])
      ∷ print (
          "  AsynchronousService::RequestServerStreaming($Idx$, "
          ∷ "context, request, writer, new_call_cq, notification_cq, tag);\n" ∷ [])
      ∷ print_plain ("}\n\n" ∷ [])
      ∷ []
    else if bidi_streaming method
    then print (
        "void AsyncService::Request$Method$(" ∷ "::grpc_cb::ServerContext* context, "
        ∷ "::grpc_cb::ServerAsyncReaderWriter< $Response$, $Request$>* reader_writer, "
        ∷ "::grpc_cb::CompletionQueue* new_call_cq, "
        ∷ "::grpc_cb::ServerCompletionQueue* notification_cq, void *tag) {\n" ∷ [])
      ∷ print (
          "  AsynchronousService::RequestBidiStreaming($Idx$, "
          ∷ "context, stream, new_call_cq, notification_cq, tag);\n" ∷ [])
      ∷ print_plain ("}\n\n" ∷ [])
      ∷ []
    else [])

-- How the case of a method passes the call on.
unfoldable pub call_method_body : MethodDescriptor → List Action
call_method_body method =
    if no_streaming method
    then print (
        "      if (!request_buffer) return;\n" ∷ "      $Method$(*request_buffer,\n"
        ∷ "          $Method$_Replier(call_sptr));\n" ∷ [])
      ∷ []
    else if server_only_streaming method
    then print (
        "      if (!request_buffer) return;\n" ∷ "      $Method$(*request_buffer,\n"
        ∷ "          $Method$_Writer(call_sptr));\n" ∷ [])
      ∷ []
    else print ("      assert(!request_buffer);\n" ∷ "      $Method$(call_sptr);\n" ∷ []) ∷ []

-- One round of the loop of `PrintCallMethod`.
unfoldable pub call_method_case : ℕ → MethodDescriptor → List Action
unfolding call_method_body
call_method_case i method =
    set "Idx" (as_string i)
    ∷ set "Method" method.name
    ∷ set "Response" (class_name method.output_type true)
    ∷ print ("    case $Idx$:\n" ∷ [])
    ∷ (call_method_body method ++ print_plain ("      return;\n" ∷ []) ∷ [])

unfoldable pub print_call_method : ServiceDescriptor → List Action
unfolding call_method_case for_index
print_call_method service =
    print_plain (
      "void Service::CallMethod(\n" ∷ "    size_t method_index, grpc_byte_buffer* request_buffer,\n"
      ∷ "    const ::grpc_cb::CallSptr& call_sptr) {\n"
      ∷ "  assert(method_index < GetMethodCount());\n" ∷ "  switch (method_index) {\n" ∷ [])
    ∷ (for_index call_method_case 0 service.methods
        ++ print_plain (
            "  }  // switch\n" ∷ "  assert(false);\n" ∷ "  (void)request_buffer;\n"
            ∷ "  (void)call_sptr;\n" ∷ "}\n\n" ∷ [])
          ∷ [])
