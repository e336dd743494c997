-- ===== src/Generator/Indentation.antt =====
-- The indentation of the header's services: no `Outdent` without its `Indent`.
use grpc_cb.Base.{
  ℕ, zero, suc, ◌≡◌, refl, ◌∙◌, Option, none, some, List, [], ◌∷◌, ◌++◌, arith, Bytes,
}
use grpc_cb.Helpers.Descriptors.{MethodDescriptor, ServiceDescriptor, FileDescriptor}
use grpc_cb.Generator.Kinds.{by_kind}
use grpc_cb.Generator.Printing.{
  Action, set, print, print_plain, indent, outdent, for_each, Parameters,
}
use grpc_cb.Generator.Header.{
  header_service_class, header_service_end, print_header_client_method_public,
  print_header_service_method, print_header_service, header_service, get_header_services,
}

-- The level after some actions; `none` if the level would fall below the one of the margin.
unfoldable pub level : ℕ → List Action → Option ℕ
level n [] = some n
level n (set key value ∷ actions) = level n actions
level n (print t ∷ actions) = level n actions
level n (print_plain t ∷ actions) = level n actions
level n (indent ∷ actions) = level (suc n) actions
level zero (outdent ∷ actions) = none
level (suc n) (outdent ∷ actions) = level n actions

abbrev pub IsBalanced : List Action → Type 0
IsBalanced actions = (n : ℕ) → level n actions ≡ some n

level-append :
    (n m : ℕ) (as' bs : List Action) → level n as' ≡ some m → level n (as' ++ bs) ≡ level m bs
unfolding level
level-append n m [] bs h = ground arith
level-append n m (set key value ∷ as') bs h = level-append n m as' bs h
level-append n m (print t ∷ as') bs h = level-append n m as' bs h
level-append n m (print_plain t ∷ as') bs h = level-append n m as' bs h
level-append n m (indent ∷ as') bs h = level-append (suc n) m as' bs h
level-append zero m (outdent ∷ as') bs h = cc
level-append (suc n) m (outdent ∷ as') bs h = level-append n m as' bs h

for_each-IsBalanced {ℓ} :
    {A : Type ℓ} (body : A → List Action) (xs : List A)
    → ((x : A) → IsBalanced (body x))
    → IsBalanced (for_each body xs)
unfolding for_each
for_each-IsBalanced body [] h n = unfold level in refl
for_each-IsBalanced body (x ∷ xs) h n =
    level-append n n (body x) (for_each body xs) (h x n) ∙ for_each-IsBalanced body xs h n

client_method-IsBalanced : (m : MethodDescriptor) → IsBalanced (print_header_client_method_public m)
unfolding level print_header_client_method_public
client_method-IsBalanced =
    by_kind _ (λ a b c n. refl) (λ a b c n. refl) (λ a b c n. refl) (λ a b c n. refl)

service_method-IsBalanced : (m : MethodDescriptor) → IsBalanced (print_header_service_method m)
unfolding level print_header_service_method
service_method-IsBalanced =
    by_kind _ (λ a b c n. refl) (λ a b c n. refl) (λ a b c n. refl) (λ a b c n. refl)

header_service-IsBalanced : (s : ServiceDescriptor) → IsBalanced (header_service s)
unfolding level header_service
header_service-IsBalanced s n =
    level-append n n (print_header_service s) (print_plain ("\n" ∷ []) ∷ []) (
      level-append (suc n) (suc n) (for_each print_header_client_method_public s.methods)
        (header_service_class
          ++ (for_each print_header_service_method s.methods ++ header_service_end))
        (for_each-IsBalanced print_header_client_method_public s.methods client_method-IsBalanced
          (suc n))
      ∙ level-append n n (for_each print_header_service_method s.methods) header_service_end
          (for_each-IsBalanced print_header_service_method s.methods service_method-IsBalanced n))

-- Whatever the services and their methods, the header's indentation returns to where it was, and
-- never falls below that on the way.
pub get_header_services-IsBalanced :
    (file : FileDescriptor) (params : Parameters) → IsBalanced (get_header_services file params)
unfolding level get_header_services
get_header_services-IsBalanced file params n = go params.services_namespace
  where
    loop : level n (for_each header_service file.services) ≡ some n
    loop = for_each-IsBalanced header_service file.services header_service-IsBalanced n

    go :
        (namespace : Bytes)
        → level n (get_header_services file (record { services_namespace = namespace })) ≡ some n
    go [] = level-append n n (for_each header_service file.services) [] loop
    go (c ∷ cs) =
        level-append n n (for_each header_service file.services)
          (print ("}  // namespace $services_namespace$\n\n" ∷ []) ∷ []) loop
