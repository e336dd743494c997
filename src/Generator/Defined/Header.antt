-- ===== src/Generator/Defined/Header.antt =====
-- Every `Print` of the functions that write the header finds its variables assigned.
use grpc_cb.Base.{◌≡◌, refl, true, List, [], ◌∷◌, ◌++◌, reverse, Bytes, codes, All}
use grpc_cb.Helpers.Descriptors.{MethodDescriptor, ServiceDescriptor, FileDescriptor}
use grpc_cb.Generator.Printing.{print, print_plain, calls, for_each, Parameters}
use grpc_cb.Generator.Variables.{
  IsDefined, checks, checks-cons, checks-append, checks-sequence, sequence, checks-for_each,
  checks-IsDefined, keys_of,
}
use grpc_cb.Generator.Header.{
  header_service_class, header_service_end, get_header_prologue, open_part, get_header_includes,
  print_header_client_method_public, print_header_service_method, header_service,
  get_header_services, close_part, get_header_epilogue,
}
use grpc_cb.Helpers.Tokenize.{tokenize}
use grpc_cb.Generator.Kinds.{by_kind}

abbrev service_keys : List Bytes
service_keys = codes "Service" ∷ []

client_method-checks :
    (m : MethodDescriptor) → checks service_keys (print_header_client_method_public m) ≡ true
unfolding checks print_header_client_method_public
client_method-checks = by_kind _ (λ n i o. refl) (λ n i o. refl) (λ n i o. refl) (λ n i o. refl)

service_method-checks :
    (m : MethodDescriptor) → checks service_keys (print_header_service_method m) ≡ true
unfolding checks print_header_service_method
service_method-checks = by_kind _ (λ n i o. refl) (λ n i o. refl) (λ n i o. refl) (λ n i o. refl)

header_service-checks : (s : ServiceDescriptor) → checks [] (header_service s) ≡ true
unfolding checks header_service
header_service-checks s =
    checks-append service_keys
      (sequence (
        for_each print_header_client_method_public s.methods
        ∷ header_service_class
        ∷ for_each print_header_service_method s.methods
        ∷ header_service_end
        ∷ []))
      (print_plain ("\n" ∷ []) ∷ [])
      (checks-sequence service_keys
        (for_each print_header_client_method_public s.methods
          ∷ header_service_class
          ∷ for_each print_header_service_method s.methods
          ∷ header_service_end
          ∷ [])
        (
          checks-for_each service_keys print_header_client_method_public s.methods
              client_method-checks,
          (
            refl,
            (
              checks-for_each service_keys print_header_service_method s.methods
                  service_method-checks,
              (refl, tt),
            ),
          ),
        ))
      refl

get_header_services-checks :
    (file : FileDescriptor) (params : Parameters)
    → checks [] (get_header_services file params) ≡ true
unfolding checks get_header_services
get_header_services-checks file params =
    by_namespace params.services_namespace
      (checks-for_each [] header_service file.services header_service-checks)
  where
    by_namespace :
        (namespace : Bytes)
        → checks [] (for_each header_service file.services) ≡ true
        → checks [] (get_header_services file (record { services_namespace = namespace })) ≡ true
    by_namespace [] h = checks-append [] (for_each header_service file.services) [] h refl
    by_namespace (c ∷ cs) h =
        checks-append (codes "services_namespace" ∷ []) (for_each header_service file.services)
          (print ("}  // namespace $services_namespace$\n\n" ∷ []) ∷ [])
          (checks-cons (codes "services_namespace") [] (for_each header_service file.services) h)
          refl

-- The functions that open and close the package's namespaces split on whether there is a package.
get_header_includes-checks :
    (file : FileDescriptor) (params : Parameters)
    → checks [] (get_header_includes file params) ≡ true
unfolding checks get_header_includes
get_header_includes-checks file params = go file.package_name
  where
    go :
        (package_name : Bytes)
        → checks [] (get_header_includes (record file { package_name = package_name }) params)
          ≡ true
    go [] = refl
    go (c ∷ cs) =
        checks-append (codes "package" ∷ codes "filename_base" ∷ codes "filename" ∷ [])
          (for_each open_part (tokenize (c ∷ cs) (codes "."))) (print_plain ("\n" ∷ []) ∷ [])
          (checks-for_each (codes "package" ∷ codes "filename_base" ∷ codes "filename" ∷ [])
            open_part (tokenize (c ∷ cs) (codes ".")) (λ part. refl))
          refl

get_header_epilogue-checks :
    (file : FileDescriptor) (params : Parameters)
    → checks [] (get_header_epilogue file params) ≡ true
unfolding checks get_header_epilogue
get_header_epilogue-checks file params = go file.package_name
  where
    go :
        (package_name : Bytes)
        → checks [] (get_header_epilogue (record file { package_name = package_name }) params)
          ≡ true
    go [] = refl
    go (c ∷ cs) =
        checks-append (codes "filename_identifier" ∷ codes "filename" ∷ [])
          (for_each close_part (reverse (tokenize (c ∷ cs) (codes "."))) ++ print ("\n" ∷ []) ∷ [])
          (print ("#endif  // GRPC_CB_$filename_identifier$__INCLUDED\n" ∷ []) ∷ [])
          (checks-append (codes "filename_identifier" ∷ codes "filename" ∷ [])
            (for_each close_part (reverse (tokenize (c ∷ cs) (codes ".")))) (print ("\n" ∷ []) ∷ [])
            (checks-for_each (codes "filename_identifier" ∷ codes "filename" ∷ []) close_part
              (reverse (tokenize (c ∷ cs) (codes "."))) (λ part. refl))
            refl)
          refl

-- Whatever the file and the parameters, every `Print` of the functions that write the header asks
-- only for variables that are assigned at that call, and each template's dollar signs pair up.
pub header-IsDefined :
    (file : FileDescriptor) (params : Parameters)
    → All IsDefined (calls [] (get_header_prologue file params))
      × All IsDefined (calls [] (get_header_includes file params))
      × All IsDefined (calls [] (get_header_services file params))
      × All IsDefined (calls [] (get_header_epilogue file params))
header-IsDefined file params = (
  checks-IsDefined [] (get_header_prologue file params)
      (unfold checks get_header_prologue keys_of in refl),
  checks-IsDefined [] (get_header_includes file params)
      (unfold keys_of in get_header_includes-checks file params),
  checks-IsDefined [] (get_header_services file params)
      (unfold keys_of in get_header_services-checks file params),
  checks-IsDefined [] (get_header_epilogue file params)
      (unfold keys_of in get_header_epilogue-checks file params),
)
