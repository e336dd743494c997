-- ===== src/Generator/Dispatch.antt =====
-- The generated `Service::CallMethod`: its cases, in order, and what each does with the call.
use grpc_cb.Base.{
  ℕ, ◌+◌, ◌≡◌, refl, ap, ◌∙◌, true, false, Option, none, some, List, [], ◌∷◌, ◌++◌, append_assoc,
  Bytes, codes, bytes_eq, if◌then◌else◌,
}
use grpc_cb.Helpers.Descriptors.{MethodDescriptor, ServiceDescriptor}
use grpc_cb.Generator.Kinds.{by_kind}
use grpc_cb.Generator.Printing.{
  Action, print_plain, text, Vars, lookup, Call, printed, indented, outdented, calls, vars_after,
  for_index, as_string,
}
use grpc_cb.Generator.Server.{call_method_case, print_call_method}

-- A case as it is printed: its label, its method, and the text of its body.
pub record Case : Type 0 where
  pub label : Option Bytes
  pub method : Option Bytes
  pub body : Bytes

abbrev case_text : Bytes
case_text = codes "    case $Idx$:\n"

-- The cases among some calls; behind the call of a label, the label is held until the next call.
unfoldable pub cases_of : Option (Option Bytes) → List Call → List Case
cases_of held [] = []
cases_of none (printed vars t ∷ cs) = elim (bytes_eq t case_text) [
  | true ↦ cases_of (some (lookup (codes "Idx") vars)) cs
  | false ↦ cases_of none cs
]
cases_of (some held) (printed vars t ∷ cs) =
    record { label = held; method = lookup (codes "Method") vars; body = t } ∷ cases_of none cs
cases_of held (indented ∷ cs) = cases_of held cs
cases_of held (outdented ∷ cs) = cases_of held cs

-- A method without a stream from the client is given the request in the buffer, with a writer if it
-- answers by a stream and a replier if not; one with such a stream is given the call alone.
unfoldable pub body_of : MethodDescriptor → Bytes
body_of m =
    if m.client_streaming
    then codes "      assert(!request_buffer);\n" ++ codes "      $Method$(call_sptr);\n"
    else codes "      if (!request_buffer) return;\n"
      ++ (codes "      $Method$(*request_buffer,\n"
          ++ (if m.server_streaming
              then codes "          $Method$_Writer(call_sptr));\n"
              else codes "          $Method$_Replier(call_sptr));\n"))

unfoldable pub cases_from : ℕ → List MethodDescriptor → List Case
cases_from i [] = []
cases_from i (m ∷ ms) =
    record { label = some (as_string i); method = some m.name; body = body_of m }
    ∷ cases_from (i + 1) ms

case-calls :
    (i : ℕ) (rest : List Action) (m : MethodDescriptor) (vars : Vars)
    → cases_of none (calls vars (call_method_case i m ++ rest))
      ≡ record { label = some (as_string i); method = some m.name; body = body_of m }
        ∷ cases_of none (calls (vars_after vars (call_method_case i m)) rest)
unfolding cases_of calls call_method_case vars_after lookup bytes_eq body_of text
case-calls i rest =
    by_kind _ (λ n a b v. refl) (λ n a b v. refl) (λ n a b v. refl) (λ n a b v. refl)

for_index-cases :
    (i : ℕ) (ms : List MethodDescriptor) (rest : List Action) (vars : Vars)
    → ((vars' : Vars) → cases_of none (calls vars' rest) ≡ [])
    → cases_of none (calls vars (for_index call_method_case i ms ++ rest)) ≡ cases_from i ms
unfolding for_index cases_from
for_index-cases i [] rest vars silent = silent vars
for_index-cases i (m ∷ ms) rest vars silent =
    ap (λ l. cases_of none (calls vars l))
      (append_assoc (call_method_case i m) (for_index call_method_case (i + 1) ms) rest)
    ∙ case-calls i (for_index call_method_case (i + 1) ms ++ rest) m vars
    ∙ ap (λ l. record { label = some (as_string i); method = some m.name; body = body_of m } ∷ l)
        (for_index-cases (i + 1) ms rest (vars_after vars (call_method_case i m)) silent)

-- `CallMethod` has a case for each method, in the service's order and labelled by its index, and
-- the body of the case is the one that the method's streams ask for.
pub print_call_method-cases :
    (service : ServiceDescriptor) (vars : Vars)
    → cases_of none (calls vars (print_call_method service)) ≡ cases_from 0 service.methods
unfolding cases_of calls print_call_method bytes_eq text
print_call_method-cases service vars =
    for_index-cases 0 service.methods
      (print_plain (
          "  }  // switch\n" ∷ "  assert(false);\n" ∷ "  (void)request_buffer;\n"
          ∷ "  (void)call_sptr;\n" ∷ "}\n\n" ∷ [])
        ∷ [])
      vars (λ vars'. refl)
