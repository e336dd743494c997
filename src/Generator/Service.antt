-- ===== src/Generator/Service.antt =====
-- `PrintSourceService` and `GetSourceServices` of cpp_cb_generator.cc.
use grpc_cb.Base.{ℕ, List, [], ◌∷◌, ◌++◌, codes, if◌then◌else◌, length}
use grpc_cb.Helpers.Descriptors.{MethodDescriptor, ServiceDescriptor, FileDescriptor}
use grpc_cb.Generator.Printing.{
  Action, set, print, print_plain, for_each, for_index, as_string, Parameters,
}
use grpc_cb.Generator.Header.{is_empty}
use grpc_cb.Generator.Stub.{print_source_client_method}
use grpc_cb.Generator.Server.{print_call_method, print_source_server_method}

unfoldable pub method_name : MethodDescriptor → List Action
method_name method =
    set "Method" method.name ∷ print ("  \"/$Package$$Service$/$Method$\",\n" ∷ []) ∷ []

unfoldable pub indexed_stub : ℕ → MethodDescriptor → List Action
unfolding print_source_client_method
indexed_stub i method = set "Idx" (as_string i) ∷ print_source_client_method method

unfoldable pub indexed_server_method : ℕ → MethodDescriptor → List Action
unfolding print_source_server_method
indexed_server_method i method = set "Idx" (as_string i) ∷ print_source_server_method method

-- The actions between the loops of `PrintSourceService`.
unfoldable pub source_service_stub : List Action
source_service_stub =
    print ("};\n\n" ∷ [])
    ∷ print (
        "const ::google::protobuf::ServiceDescriptor& GetServiceDescriptor() {\n"
        ∷ "  AssignDescriptorsOnce();\n" ∷ "  assert(service_descriptor_$Service$);\n"
        ∷ "  return *service_descriptor_$Service$;\n" ∷ "}\n\n" ∷ [])
    ∷ print (
        "Stub::Stub(const ::grpc_cb::ChannelSptr& channel,\n"
        ∷ "    const ::grpc_cb::CompletionQueueForNextSptr& cq4n_sptr)\n"
        ∷ "    : ::grpc_cb::ServiceStub(channel, cq4n_sptr) {}\n\n" ∷ [])
    ∷ []

unfoldable pub source_service_class : ServiceDescriptor → List Action
source_service_class service =
    set "MethodCount" (as_string (length service.methods))
    ∷ print ("Service::Service() {}\n\n" ∷ "Service::~Service() {}\n\n" ∷ [])
    ∷ print_plain (
        "const std::string& Service::GetMethodName(size_t method_index) const {\n"
        ∷ "  assert(method_index < GetMethodCount());\n" ∷ "  return method_names[method_index];\n"
        ∷ "}\n\n" ∷ [])
    ∷ []

unfoldable pub print_source_service : ServiceDescriptor → List Action
unfolding method_name indexed_stub indexed_server_method print_call_method source_service_stub
    source_service_class for_each for_index
print_source_service service =
    set "Service" service.name
    ∷ print ("namespace $Service$ {  // service $Service$\n" ∷ "\n" ∷ [])
    ∷ print ("static const std::string method_names[] = {\n" ∷ [])
    ∷ (for_each method_name service.methods
        ++ (source_service_stub
            ++ (for_index indexed_stub 0 service.methods
                ++ (source_service_class service
                    ++ (print_call_method service
                        ++ (for_index indexed_server_method 0 service.methods
                            ++ print ("}  // namespace $Service$\n\n" ∷ []) ∷ []))))))

unfoldable pub get_source_services : FileDescriptor → Parameters → List Action
unfolding print_source_service
get_source_services file params =
    set "Package"
      (if is_empty file.package_name then file.package_name else file.package_name ++ codes ".")
    ∷ for_each print_source_service file.services
