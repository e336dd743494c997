-- ===== src/Generator/Defined/Source.antt =====
-- Every `Print` of the functions that write the source file finds its variables assigned.
use grpc_cb.Base.{ℕ, ◌≡◌, refl, Bool, true, false, List, [], ◌∷◌, Bytes, codes, All}
use grpc_cb.Helpers.Descriptors.{MethodDescriptor, ServiceDescriptor, FileDescriptor}
use grpc_cb.Generator.Printing.{print, print_plain, calls, for_each, for_index, Parameters}
use grpc_cb.Generator.Variables.{
  IsDefined, checks, checks-append, checks-sequence, checks-for_each, checks-for_index,
  checks-IsDefined, keys_of,
}
use grpc_cb.Generator.Source.{
  get_source_prologue, open_source_part, get_source_includes, declare_descriptor, assign_descriptor,
  descriptor_methods, get_source_descriptors,
}
use grpc_cb.Generator.Server.{call_method_case, print_call_method}
use grpc_cb.Helpers.Tokenize.{tokenize}
use grpc_cb.Generator.Service.{
  source_service_stub, source_service_class, method_name, indexed_stub, indexed_server_method,
  print_source_service, get_source_services,
}
use grpc_cb.Generator.Kinds.{by_kind}

get_source_includes-checks :
    (file : FileDescriptor) (params : Parameters)
    → checks [] (get_source_includes file params) ≡ true
unfolding checks get_source_includes
get_source_includes-checks file params = go file.package_name
  where
    go :
        (package_name : Bytes)
        → checks [] (get_source_includes (record file { package_name = package_name }) params)
          ≡ true
    go [] = refl
    go (c ∷ cs) =
        checks-append [] (for_each open_source_part (tokenize (c ∷ cs) (codes ".")))
          (print ("\n" ∷ []) ∷ [])
          (checks-for_each [] open_source_part (tokenize (c ∷ cs) (codes ".")) (λ part. refl)) refl

abbrev file_keys : List Bytes
file_keys = codes "AssignDescriptorsName" ∷ codes "filename" ∷ []

descriptor_methods-checks :
    (file : FileDescriptor) → checks file_keys (descriptor_methods file) ≡ true
unfolding checks descriptor_methods
descriptor_methods-checks file =
    checks-append file_keys (for_index assign_descriptor 0 file.services)
      (print ("}  // $AssignDescriptorsName$()\n" ∷ "\n" ∷ [])
        ∷ print (
            "GOOGLE_PROTOBUF_DECLARE_ONCE(grpc_cb_AssignDescriptors_once_);\n"
            ∷ "inline void AssignDescriptorsOnce() {\n" ∷ "  ::google::protobuf::GoogleOnceInit(\n"
            ∷ "    &grpc_cb_AssignDescriptors_once_,\n" ∷ "    &$AssignDescriptorsName$);\n" ∷ "}\n"
            ∷ "\n" ∷ [])
        ∷ print_plain ("}  // namespace\n" ∷ "\n" ∷ [])
        ∷ [])
      (checks-for_index file_keys assign_descriptor 0 file.services (λ i s. refl)) refl

get_source_descriptors-checks :
    (file : FileDescriptor) (params : Parameters)
    → checks [] (get_source_descriptors file params) ≡ true
unfolding checks get_source_descriptors
get_source_descriptors-checks file params = go file.lite_runtime
  where
    declared : checks file_keys (for_each declare_descriptor file.services) ≡ true
    declared = checks-for_each file_keys declare_descriptor file.services (λ s. refl)

    go :
        (lite : Bool)
        → checks [] (get_source_descriptors (record file { lite_runtime = lite }) params) ≡ true
    go true =
        checks-append file_keys (for_each declare_descriptor file.services)
          (print_plain ("\n" ∷ []) ∷ []) declared refl
    go false =
        checks-append file_keys (for_each declare_descriptor file.services)
          (print_plain ("\n" ∷ []) ∷ descriptor_methods (record file { lite_runtime = false }))
          declared (descriptor_methods-checks (record file { lite_runtime = false }))

abbrev source_keys : List Bytes
source_keys = codes "Service" ∷ codes "Package" ∷ []

stub-checks : (i : ℕ) (m : MethodDescriptor) → checks source_keys (indexed_stub i m) ≡ true
unfolding checks indexed_stub
stub-checks i = by_kind _ (λ n a b. refl) (λ n a b. refl) (λ n a b. refl) (λ n a b. refl)

server_method-checks :
    (i : ℕ) (m : MethodDescriptor) → checks source_keys (indexed_server_method i m) ≡ true
unfolding checks indexed_server_method
server_method-checks i = by_kind _ (λ n a b. refl) (λ n a b. refl) (λ n a b. refl) (λ n a b. refl)

case-checks : (i : ℕ) (m : MethodDescriptor) → checks source_keys (call_method_case i m) ≡ true
unfolding checks call_method_case
case-checks i = by_kind _ (λ n a b. refl) (λ n a b. refl) (λ n a b. refl) (λ n a b. refl)

call_method-checks : (s : ServiceDescriptor) → checks source_keys (print_call_method s) ≡ true
unfolding checks print_call_method
call_method-checks s =
    checks-append source_keys (for_index call_method_case 0 s.methods)
      (print_plain (
          "  }  // switch\n" ∷ "  assert(false);\n" ∷ "  (void)request_buffer;\n"
          ∷ "  (void)call_sptr;\n" ∷ "}\n\n" ∷ [])
        ∷ [])
      (checks-for_index source_keys call_method_case 0 s.methods case-checks) refl

source_service-checks :
    (s : ServiceDescriptor) → checks (codes "Package" ∷ []) (print_source_service s) ≡ true
unfolding checks print_source_service
source_service-checks s =
    checks-sequence source_keys
      (for_each method_name s.methods
        ∷ source_service_stub
        ∷ for_index indexed_stub 0 s.methods
        ∷ source_service_class s
        ∷ print_call_method s
        ∷ for_index indexed_server_method 0 s.methods
        ∷ (print ("}  // namespace $Service$\n\n" ∷ []) ∷ [])
        ∷ [])
      (
        checks-for_each source_keys method_name s.methods (λ m. refl),
        (
          refl,
          (
            checks-for_index source_keys indexed_stub 0 s.methods stub-checks,
            (
              refl,
              (
                call_method-checks s,
                (
                  checks-for_index source_keys indexed_server_method 0 s.methods
                      server_method-checks,
                  (refl, tt),
                ),
              ),
            ),
          ),
        ),
      )

get_source_services-checks :
    (file : FileDescriptor) (params : Parameters)
    → checks [] (get_source_services file params) ≡ true
unfolding checks get_source_services
get_source_services-checks file params =
    checks-for_each (codes "Package" ∷ []) print_source_service file.services source_service-checks

-- Whatever the file and the parameters, every `Print` of the functions that write the source file
-- asks only for variables that are assigned at that call, and each template's dollar signs pair up.
pub source-IsDefined :
    (file : FileDescriptor) (params : Parameters)
    → All IsDefined (calls [] (get_source_prologue file params))
      × All IsDefined (calls [] (get_source_includes file params))
      × All IsDefined (calls [] (get_source_descriptors file params))
      × All IsDefined (calls [] (get_source_services file params))
source-IsDefined file params = (
  checks-IsDefined [] (get_source_prologue file params)
      (unfold checks get_source_prologue keys_of in refl),
  checks-IsDefined [] (get_source_includes file params)
      (unfold keys_of in get_source_includes-checks file params),
  checks-IsDefined [] (get_source_descriptors file params)
      (unfold keys_of in get_source_descriptors-checks file params),
  checks-IsDefined [] (get_source_services file params)
      (unfold keys_of in get_source_services-checks file params),
)
